-- ===== src/Uart/Session.antt =====
-- The session with the panel and its table of handled actions
-- (nightshift/hardware/uart/session.py).
pub mod Invariant
pub mod Replay
use nightshift_opi.Prelude.{
  ℕ, Bool, true, false, ◌&&◌, not, Option, none, some, List, [], ◌∷◌, ◌++◌, leb, ◌==◌,
  if◌then◌else◌, length, take, drop,
}
use nightshift_opi.Prelude.Bytes.{Bytes}

-- A digest: the characters of a hexadecimal number.
abbrev pub Digest : Type 0
Digest = List ℕ

unfoldable pub digest_eq : Digest → Digest → Bool
digest_eq [] [] = true
digest_eq (a ∷ xs) (b ∷ ys) = a == b && digest_eq xs ys
digest_eq _ _ = false

pub record DedupKey : Type 0 where
  pub boot_id : ℕ
  pub sequence : ℕ
  pub command : ℕ

abbrev pub key_eq : DedupKey → DedupKey → Bool
key_eq j k = j.boot_id == k.boot_id && j.sequence == k.sequence && j.command == k.command

pub record DedupEntry : Type 0 where
  pub digest : Digest
  pub status : ℕ
  pub reply_data : Bytes

abbrev pub Cache : Type 0
Cache = List (DedupKey × DedupEntry)

-- `dedup_cache` is a dict, which keeps the order in which its keys were inserted.
pub record UartSession : Type 0 where
  pub boot_id : Option ℕ
  pub dedup_cache : Cache
  pub in_flight : List DedupKey
  pub max_cache_size : ℕ

abbrev pub new_session : UartSession
new_session = record { boot_id = none; dedup_cache = []; in_flight = []; max_cache_size = 256 }

-- `dict.get`
unfoldable pub lookup : DedupKey → Cache → Option DedupEntry
lookup k [] = none
lookup k ((j, e) ∷ cache) = if key_eq j k then some e else lookup k cache

-- `dict[key] = entry`: a key that is there keeps its place.
unfoldable pub store : DedupKey → DedupEntry → Cache → Cache
store k e [] = (k, e) ∷ []
store k e ((j, f) ∷ cache) = if key_eq j k then (j, e) ∷ cache else (j, f) ∷ store k e cache

-- `key in in_flight`
unfoldable pub member : DedupKey → List DedupKey → Bool
member k [] = false
member k (j ∷ keys) = if key_eq j k then true else member k keys

-- `in_flight.discard(key)`
unfoldable pub discard : DedupKey → List DedupKey → List DedupKey
discard k [] = []
discard k (j ∷ keys) = let rest = discard k keys in if key_eq j k then rest else j ∷ rest

-- `DedupResult`: a disposition, with the fields that the code sets for it.
pub data DedupResult : Type 0 where
  execute : DedupKey → Digest → DedupResult
  replay : ℕ → Bytes → DedupResult
  conflict : DedupResult
  in_flight : DedupResult
  new_session_seen : DedupResult

unfoldable pub reset : ℕ → UartSession → UartSession
reset new_boot_id s = record s { boot_id = some new_boot_id; dedup_cache = []; in_flight = [] }

unfoldable pub is_active : UartSession → Bool
is_active s = elim s.boot_id [ none ↦ false | some _ ↦ true ]

-- `boot_id != self.boot_id`
abbrev pub same_boot : Option ℕ → ℕ → Bool
same_boot none b = false
same_boot (some a) b = a == b

-- `hashlib.sha256(payload).hexdigest()` is not code of the repository.
module _ (sha256_hex : Bytes → Digest) where
  unfoldable pub compute_digest : Bytes → Digest
  compute_digest payload = take 16 (sha256_hex payload)

  unfoldable pub check_action : ℕ → ℕ → ℕ → Bytes → UartSession → DedupResult × UartSession
  check_action boot_id sequence command payload s =
      let key : DedupKey = record { boot_id = boot_id; sequence = sequence; command = command } in
      let digest = compute_digest payload in
      if not (same_boot s.boot_id boot_id)
      then (new_session_seen, s)
      else elim (lookup key s.dedup_cache) [
        | some existing ↦
            if digest_eq existing.digest digest
            then (replay existing.status existing.reply_data, s)
            else (conflict, s)
        | none ↦
            if member key s.in_flight
            then (in_flight, s)
            else (execute key digest, record s { in_flight = key ∷ s.in_flight })
      ]

-- `next(iter(cache))` and `del cache[oldest]`: the first entry goes.
unfoldable pub evict : ℕ → Cache → Cache
evict max_size cache = if leb max_size (length cache) then drop 1 cache else cache

unfoldable pub record_result : DedupKey → Digest → ℕ → Bytes → UartSession → UartSession
record_result key digest status reply_data s = record s {
  in_flight = discard key s.in_flight;
  dedup_cache =
      store key (record { digest = digest; status = status; reply_data = reply_data })
        (evict s.max_cache_size s.dedup_cache);
}

unfoldable pub cancel_in_flight : DedupKey → UartSession → UartSession
cancel_in_flight key s = record s { in_flight = discard key s.in_flight }
