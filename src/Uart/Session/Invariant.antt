-- ===== src/Uart/Session/Invariant.antt =====
-- What holds of every session.
use nightshift_opi.Prelude.{
  ℕ, suc, ◌+◌, ◌≤◌, ◌<◌, ◌≡◌, refl, true, false, none, some, List, [], ◌∷◌, length, leb, arith,
  if◌then◌else◌, Bool-cases, inl, inr,
}
use nightshift_opi.Prelude.Bytes.{Bytes}
use nightshift_opi.Uart.Session.{
  Digest, DedupKey, DedupEntry, Cache, UartSession, key_eq, lookup, store, member, discard, evict,
  reset, check_action, record_result, cancel_in_flight, new_session,
}

-- No key stands twice in the table.
abbrev pub Distinct : Cache → Type 0
Distinct [] = Unit
Distinct ((k, e) ∷ cache) = (lookup k cache ≡ none) × Distinct cache

-- The table is within its size; a key that is being handled has no result yet; and all keys are
-- of the session's boot.
pub record IsValid (s : UartSession) : Type 0 where
  pub room : 0 < s.max_cache_size
  pub distinct : Distinct s.dedup_cache
  pub bounded : length s.dedup_cache ≤ s.max_cache_size
  pub open_keys : (k : DedupKey) → member k s.in_flight ≡ true → lookup k s.dedup_cache ≡ none
  pub cached_boot :
      (k : DedupKey) (e : DedupEntry) → lookup k s.dedup_cache ≡ some e → s.boot_id ≡ some k.boot_id
  pub open_boot : (k : DedupKey) → member k s.in_flight ≡ true → s.boot_id ≡ some k.boot_id

pub lookup-store :
    (k j : DedupKey) (e : DedupEntry) (cache : Cache)
    → lookup j (store k e cache) ≡ (if key_eq k j then some e else lookup j cache)
unfolding lookup store
lookup-store k j e [] = ground arith
lookup-store k j e ((i, f) ∷ cache) = ground (arith, lookup-store k j e cache)

pub length-store :
    (k : DedupKey) (e : DedupEntry) (cache : Cache) → length (store k e cache) ≤ length cache + 1
unfolding store
length-store k e [] = omega arith
length-store k e ((j, f) ∷ cache) = ground (arith, length-store k e cache)

member-discard :
    (k j : DedupKey) (keys : List DedupKey)
    → member j (discard k keys) ≡ (if key_eq k j then false else member j keys)
unfolding member discard
member-discard k j [] = ground arith
member-discard k j (i ∷ keys) = ground (arith, member-discard k j keys)

pub key_eq-eq : (j k : DedupKey) → key_eq j k ≡ true → j ≡ k
key_eq-eq j k h = ground arith

pub key_eq_refl : (k : DedupKey) → key_eq k k ≡ true
key_eq_refl k = ground arith

store-Distinct :
    (k : DedupKey) (e : DedupEntry) (cache : Cache) → Distinct cache → Distinct (store k e cache)
unfolding store
store-Distinct k e [] d = unfold lookup in (refl, tt)
store-Distinct k e ((j, f) ∷ cache) d = elim (Bool-cases (key_eq j k)) [
  | inl same ↦ rw (same, store) d
  | inr other ↦
      rw (other, store) (ground (arith, lookup-store k j e cache), store-Distinct k e cache d.1)
]

evict-Distinct : (n : ℕ) (cache : Cache) → Distinct cache → Distinct (evict n cache)
unfolding evict
evict-Distinct n [] d = elim (Bool-cases (leb n 0)) [
  | inl t ↦ rw (t, evict) tt
  | inr t ↦ rw (t, evict) tt
]
evict-Distinct n ((j, f) ∷ cache) d = elim (Bool-cases (leb n (suc (length cache)))) [
  | inl t ↦ rw (t, evict) d.1
  | inr t ↦ rw (t, evict) d
]

-- Only what stood in the table is found after an eviction.
lookup-evict :
    (n : ℕ) (k : DedupKey) (e : DedupEntry) (cache : Cache)
    → Distinct cache
    → lookup k (evict n cache) ≡ some e
    → lookup k cache ≡ some e
unfolding evict lookup
lookup-evict n k e [] d h = ground arith
lookup-evict n k e ((j, f) ∷ cache) d h = ground (arith, key_eq-eq j k)

pub lookup-evict-none :
    (n : ℕ) (k : DedupKey) (cache : Cache) → lookup k cache ≡ none → lookup k (evict n cache) ≡ none
unfolding evict lookup
lookup-evict-none n k [] h = ground arith
lookup-evict-none n k ((j, f) ∷ cache) h = ground arith

pub length-evict :
    (n : ℕ) (cache : Cache) → 0 < n → length cache ≤ n → length (evict n cache) + 1 ≤ n
unfolding evict
length-evict n [] h k = ground arith
length-evict n ((j, f) ∷ cache) h k = ground arith

pub new_session-IsValid : IsValid new_session
unfolding lookup member
new_session-IsValid = ground arith

pub reset-IsValid : (b : ℕ) (s : UartSession) → IsValid s → IsValid (reset b s)
unfolding reset lookup member
reset-IsValid b s h = ground arith

module _ (sha256_hex : Bytes → Digest) where
  pub cache-check_action :
      (boot_id sequence command : ℕ) (payload : Bytes) (s : UartSession)
      → (check_action sha256_hex boot_id sequence command payload s).1.dedup_cache ≡ s.dedup_cache
  unfolding check_action
  cache-check_action boot_id sequence command payload s = ground arith

  pub check_action-IsValid :
      (boot_id sequence command : ℕ) (payload : Bytes) (s : UartSession)
      → IsValid s
      → IsValid (check_action sha256_hex boot_id sequence command payload s).1
  unfolding check_action member
  check_action-IsValid boot_id sequence command payload s h =
      let key : DedupKey = record { boot_id = boot_id; sequence = sequence; command = command } in
      record {
        room = ground arith;
        distinct = rw (cache-check_action boot_id sequence command payload s) h.distinct;
        bounded = ground arith;
        open_keys = λ k m. ground (arith, h.open_keys k, key_eq-eq key k);
        cached_boot = λ k e l. ground (arith, h.cached_boot k e);
        open_boot = λ k m. ground (arith, h.open_boot k, key_eq-eq key k);
      }

-- The result of a key of this session is entered.
pub record_result-IsValid :
    (key : DedupKey) (digest : Digest) (status : ℕ) (reply : Bytes) (s : UartSession)
    → s.boot_id ≡ some key.boot_id
    → IsValid s
    → IsValid (record_result key digest status reply s)
unfolding record_result
record_result-IsValid key digest status reply s b h =
    let entry : DedupEntry = record { digest = digest; status = status; reply_data = reply } in
    let kept = evict s.max_cache_size s.dedup_cache in
    record {
      room = h.room;
      distinct =
          store-Distinct key entry kept (evict-Distinct s.max_cache_size s.dedup_cache h.distinct);
      bounded = omega (
        arith,
        length-store key entry kept,
        length-evict s.max_cache_size s.dedup_cache h.room h.bounded,
      );
      open_keys = λ k m. ground (
        arith,
        member-discard key k s.in_flight,
        h.open_keys k,
        lookup-store key k entry kept,
        lookup-evict-none s.max_cache_size k s.dedup_cache,
      );
      cached_boot = λ k e l. ground (
        arith,
        h.cached_boot k e,
        key_eq-eq key k,
        lookup-store key k entry kept,
        lookup-evict s.max_cache_size k e s.dedup_cache h.distinct,
      );
      open_boot = λ k m. ground (arith, member-discard key k s.in_flight, h.open_boot k);
    }

pub cancel_in_flight-IsValid :
    (key : DedupKey) (s : UartSession) → IsValid s → IsValid (cancel_in_flight key s)
unfolding cancel_in_flight
cancel_in_flight-IsValid key s h = record {
  room = h.room;
  distinct = h.distinct;
  bounded = h.bounded;
  open_keys = λ k m. ground (arith, member-discard key k s.in_flight, h.open_keys k);
  cached_boot = h.cached_boot;
  open_boot = λ k m. ground (arith, member-discard key k s.in_flight, h.open_boot k);
}
