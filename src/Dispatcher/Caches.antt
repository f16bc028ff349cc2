-- ===== src/Dispatcher/Caches.antt =====
-- The caches of ostp-server/src/dispatcher.rs: the secrets and the junk markers of the access keys.
use ostp.Prelude.{ℕ, ◌-◌, Option, none, some, List, ◌==◌, if◌then◌else◌, u64_max}
use ostp.External.{Hash}
use ostp.Obfuscation.{DerivedSecrets, derive_all_secrets, derive_junk_marker}
use ostp.Dict.{Dict, lookup, insert, nat_key, bytes_key}

-- `window.wrapping_sub(1)`
abbrev pub previous : ℕ → ℕ
previous window = if window == 0 then u64_max else window - 1

module _ (hash : Hash) where
  -- The secrets of a key and the cache that is left.
  abbrev pub secrets_or :
      List ℕ
      → Dict (List ℕ) DerivedSecrets
      → Option DerivedSecrets
      → DerivedSecrets × Dict (List ℕ) DerivedSecrets
  secrets_or key cache (some s) = (s, cache)
  secrets_or key cache none = let s = derive_all_secrets hash key in (s, insert key s cache)

  unfoldable pub cached_secrets :
      List ℕ → Dict (List ℕ) DerivedSecrets → DerivedSecrets × Dict (List ℕ) DerivedSecrets
  cached_secrets key cache = secrets_or key cache (lookup key cache)

  abbrev pub fresh_markers :
      List ℕ
      → ℕ
      → Dict (List ℕ) (ℕ × List ℕ × List ℕ)
      → (List ℕ × List ℕ) × Dict (List ℕ) (ℕ × List ℕ × List ℕ)
  fresh_markers key window cache =
      let m_now = derive_junk_marker hash key window in
      let m_prev = derive_junk_marker hash key (previous window) in
      ((m_now, m_prev), insert key (window, m_now, m_prev) cache)

  abbrev pub markers_or :
      List ℕ
      → ℕ
      → Dict (List ℕ) (ℕ × List ℕ × List ℕ)
      → Option (ℕ × List ℕ × List ℕ)
      → (List ℕ × List ℕ) × Dict (List ℕ) (ℕ × List ℕ × List ℕ)
  markers_or key window cache (some (w, m_now, m_prev)) =
      if w == window then ((m_now, m_prev), cache) else fresh_markers key window cache
  markers_or key window cache none = fresh_markers key window cache

  unfoldable pub cached_junk_markers :
      List ℕ
      → ℕ
      → Dict (List ℕ) (ℕ × List ℕ × List ℕ)
      → (List ℕ × List ℕ) × Dict (List ℕ) (ℕ × List ℕ × List ℕ)
  cached_junk_markers key window cache = markers_or key window cache (lookup key cache)
