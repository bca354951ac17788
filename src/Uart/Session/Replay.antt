-- ===== src/Uart/Session/Replay.antt =====
-- A handled action is answered again with its recorded result, for as long as it is kept.
use nightshift_opi.Prelude.{
  ℕ, ◌+◌, ◌≤◌, ◌<◌, ◌≡◌, refl, true, false, none, some, List, [], ◌∷◌, length, arith, if◌then◌else◌,
}
use nightshift_opi.Prelude.Bytes.{Bytes}
use nightshift_opi.Uart.Session.{
  Digest, digest_eq, DedupKey, DedupEntry, Cache, UartSession, replay, conflict, key_eq, lookup,
  store, evict, compute_digest, check_action, record_result,
}
use nightshift_opi.Uart.Session.Invariant.{
  IsValid, lookup-store, length-store, lookup-evict-none, key_eq_refl, record_result-IsValid,
}

pub digest_eq_refl : (d : Digest) → digest_eq d d ≡ true
unfolding digest_eq
digest_eq_refl [] = refl
digest_eq_refl (a ∷ d) = ground (arith, digest_eq_refl d)

module _ (sha256_hex : Bytes → Digest) where
  -- After the result of an action is entered, the same frame is answered with that result, and
  -- one with the same sequence and command and a payload of another digest is a conflict. Neither
  -- changes the session.
  pub check_action-record_result :
      (boot_id sequence command status : ℕ) (payload other reply : Bytes) (s : UartSession)
      → s.boot_id ≡ some boot_id
      → digest_eq (compute_digest sha256_hex payload) (compute_digest sha256_hex other) ≡ false
      → let key : DedupKey = record { boot_id = boot_id; sequence = sequence; command = command } in
        let s' = record_result key (compute_digest sha256_hex payload) status reply s in
        (check_action sha256_hex boot_id sequence command payload s' ≡ (replay status reply, s'))
        × (check_action sha256_hex boot_id sequence command other s' ≡ (conflict, s'))
  unfolding check_action record_result
  check_action-record_result boot_id sequence command status payload other reply s b differ =
      let key : DedupKey = record { boot_id = boot_id; sequence = sequence; command = command } in
      let digest = compute_digest sha256_hex payload in
      let entry : DedupEntry = record { digest = digest; status = status; reply_data = reply } in
      let kept = evict s.max_cache_size s.dedup_cache in
      let found : lookup key (store key entry kept) ≡ some entry =
        ground (arith, lookup-store key key entry kept) in
      (ground (arith, found, digest_eq_refl digest), ground (arith, found))

-- How many entries stand behind the one of a key.
behind : DedupKey → Cache → ℕ
behind k [] = 0
behind k ((j, f) ∷ cache) = if key_eq j k then length cache else behind k cache

behind-store_new :
    (k : DedupKey) (e : DedupEntry) (cache : Cache)
    → lookup k cache ≡ none
    → behind k (store k e cache) ≡ 0
unfolding behind store lookup
behind-store_new k e [] h = ground arith
behind-store_new k e ((j, f) ∷ cache) h = ground (arith, behind-store_new k e cache)

behind-store :
    (k j : DedupKey) (f : DedupEntry) (cache : Cache)
    → key_eq j k ≡ false
    → behind k (store j f cache) ≤ behind k cache + 1
unfolding behind store
behind-store k j f [] h = ground arith
behind-store k j f ((i, g) ∷ cache) h =
    ground (arith, behind-store k j f cache, length-store j f cache)

-- An eviction spares an entry that has fewer than `n - 1` behind it.
evict_spares :
    (n : ℕ) (k : DedupKey) (e : DedupEntry) (cache : Cache)
    → length cache ≤ n
    → behind k cache + 1 < n
    → lookup k cache ≡ some e
    → (lookup k (evict n cache) ≡ some e) × (behind k (evict n cache) ≤ behind k cache)
unfolding evict lookup behind
evict_spares n k e [] h b l = cc
evict_spares n k e ((j, f) ∷ cache) h b l = ground arith

-- Results of other actions, entered one after the other.
unfoldable pub record_all : List (DedupKey × DedupEntry) → UartSession → UartSession
record_all [] s = s
record_all ((k, e) ∷ rest) s = record_all rest (record_result k e.digest e.status e.reply_data s)

-- They are of the session and not of the key `k`.
abbrev pub AreOthers : ℕ → DedupKey → List (DedupKey × DedupEntry) → Type 0
AreOthers b k [] = Unit
AreOthers b k ((j, e) ∷ rest) = (key_eq j k ≡ false) × (j.boot_id ≡ b) × AreOthers b k rest

kept_while_behind :
    (results : List (DedupKey × DedupEntry)) (k : DedupKey) (e : DedupEntry) (b : ℕ)
    (s : UartSession)
    → IsValid s
    → s.boot_id ≡ some b
    → AreOthers b k results
    → behind k s.dedup_cache + length results < s.max_cache_size
    → lookup k s.dedup_cache ≡ some e
    → lookup k (record_all results s).dedup_cache ≡ some e
unfolding record_all
kept_while_behind [] k e b s v active others room l = l
kept_while_behind ((j, f) ∷ rest) k e b s v active others room l =
    let (spared, less) =
      evict_spares s.max_cache_size k e s.dedup_cache v.bounded (omega arith) l in
    let kept = evict s.max_cache_size s.dedup_cache in
    kept_while_behind rest k e b (record_result j f.digest f.status f.reply_data s)
      (record_result-IsValid j f.digest f.status f.reply_data s (ground arith) v)
      (unfold record_result in active) others.2
      (unfold record_result in omega (arith, behind-store k j f kept others.0))
      (unfold record_result in ground (arith, lookup-store j k f kept))

-- The result of an action that was new is found until as many other results are entered as the
-- table has places.
pub record_result_kept :
    (key : DedupKey) (entry : DedupEntry) (others : List (DedupKey × DedupEntry)) (s : UartSession)
    → IsValid s
    → s.boot_id ≡ some key.boot_id
    → lookup key s.dedup_cache ≡ none
    → AreOthers key.boot_id key others
    → length others < s.max_cache_size
    → lookup key
        (record_all others
          (record_result key entry.digest entry.status entry.reply_data s)).dedup_cache
      ≡ some entry
record_result_kept key entry others s v b new o room =
    let kept = evict s.max_cache_size s.dedup_cache in
    kept_while_behind others key entry key.boot_id
      (record_result key entry.digest entry.status entry.reply_data s)
      (record_result-IsValid key entry.digest entry.status entry.reply_data s b v)
      (unfold record_result in b) o
      (unfold record_result in
        omega (
          arith,
          behind-store_new key entry kept
              (lookup-evict-none s.max_cache_size key s.dedup_cache new),
        ))
      (unfold record_result in ground (arith, lookup-store key key entry kept, key_eq_refl key))
