-- ===== src/Slices.antt =====
-- Bytes of a slice by their index or range, as ostp-client/src/tunnel/sni_sniff.rs and ip_reasm.rs read
-- them: out of range is a panic.
use ostp.Prelude.{
  ℕ, ◌-◌, ◌≤◌, ◌<◌, ◌≡◌, refl, ap, ◌∙◌, List, length, take, drop, get_or, ltb, leb, if◌then◌else◌,
  arith, le→leb, lt→ltb,
}
use ostp.Outcome.{Outcome, ok, panic}

-- `data[pos]`, of the source's `data`
unfoldable pub byte_at : List ℕ → ℕ → Outcome ℕ
byte_at input pos = if ltb pos (length input) then ok (get_or input pos 0) else panic

-- `&data[start..end]`
unfoldable pub slice : List ℕ → ℕ → ℕ → Outcome (List ℕ)
slice input start end =
    if leb start end
    then if leb end (length input) then ok (take (end - start) (drop start input)) else panic
    else panic

pub byte_at-inside :
    (bytes : List ℕ) (pos : ℕ) → pos < length bytes → byte_at bytes pos ≡ ok (get_or bytes pos 0)
unfolding byte_at
byte_at-inside bytes pos h = rw (lt→ltb pos (length bytes) h) refl

pub slice-inside :
    (bytes : List ℕ) (start end : ℕ)
    → start ≤ end
    → end ≤ length bytes
    → slice bytes start end ≡ ok (take (end - start) (drop start bytes))
unfolding slice
slice-inside bytes start end h t = rw (le→leb start end h, le→leb end (length bytes) t) refl

pub slice-front :
    (bytes : List ℕ) (end : ℕ) → end ≤ length bytes → slice bytes 0 end ≡ ok (take end bytes)
slice-front bytes end h =
    let whole : end - 0 ≡ end = omega arith in
    slice-inside bytes 0 end (omega arith) h ∙ ap (λ n. ok (take n bytes)) whole
