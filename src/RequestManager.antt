-- ===== src/RequestManager.antt =====
-- requestManager/requestManager.go: the requests that await their replies. Each method that takes
-- the manager's lock is one step; the blocking parts stand in the children.
pub mod Identifiers
pub mod Steps
pub mod Settled
pub mod Outcome
mod Tests
use webwire_go.Base.{
  length, ℕ, zero, suc, ◌+◌, ◌/◌, ◌%◌, ◌^◌, Bool, true, false, Option, none, some, List, [], ◌∷◌,
}
use webwire_go.Map.{find, insert, delete}
use webwire_go.Runtime.{Bytes, make, copy, bytes_discrete}

abbrev pub RequestIdentifier : Type 0
RequestIdentifier = Bytes

-- The reference to the manager is left out, and the channel is the business of the steps.
pub record Request : Type 0 where
  pub identifier : RequestIdentifier
  pub timeout : ℕ

pub record RequestManager : Type 0 where
  pub last_id : ℕ
  pub pending : List (RequestIdentifier × Request)

unfoldable pub new_request_manager : RequestManager
new_request_manager = record { last_id = 0; pending = [] }

-- The lowest `k` bytes of `n`, lowest first.
unfoldable pub little_endian : ℕ → ℕ → Bytes
little_endian zero n = []
little_endian (suc k) n = (n % 256) ∷ little_endian k (n / 256)

-- `binary.LittleEndian.PutUint64`
abbrev pub put_uint64 : ℕ → Bytes
put_uint64 = little_endian 8

unfoldable pub create : RequestManager → ℕ → RequestManager × Request
create manager timeout =
    let last_id = (manager.last_id + 1) % 2 ^ 64 in
    let identifier = copy (make 8) (put_uint64 last_id) in
    let request : Request = record { identifier = identifier; timeout = timeout } in
    (
      record {
        last_id = last_id;
        pending = insert bytes_discrete identifier request manager.pending;
      },
      request,
    )

unfoldable pub deregister : RequestManager → RequestIdentifier → RequestManager
deregister manager identifier = record manager {
  pending = delete bytes_discrete identifier manager.pending;
}

unfoldable pub pending_requests : RequestManager → ℕ
pending_requests manager = length manager.pending

abbrev pub is_some {ℓ} : {A : Type ℓ} → Option A → Bool
is_some none = false
is_some (some _) = true

unfoldable pub is_pending : RequestManager → RequestIdentifier → Bool
is_pending manager identifier = is_some (find bytes_discrete identifier manager.pending)
