-- ===== src/RequestManager/Identifiers.antt =====
-- Request identifiers: distinct until the counter wraps.
use mathlib.Core.Logic.{ite}
use webwire_go.Base.{
  Option-cases, length, ℕ, zero, suc, ◌+◌, ◌*◌, ◌/◌, ◌%◌, ◌^◌, ◌≤◌, ◌<◌, ◌≡◌, refl, sym, ap, ◌∙◌,
  inl, inr, none, some, [], ◌∷◌, arith,
}
use webwire_go.Map.{
  find, insert, Distinct, find-insert, find-delete, insert-Distinct, delete-Distinct,
}
use webwire_go.RequestManager.{
  deregister, RequestIdentifier, Request, RequestManager, new_request_manager, little_endian,
  put_uint64, create,
}
use webwire_go.Runtime.{Bytes, make, copy, copy-eq_src, bytes_discrete}

-- The number that a sequence of bytes stands for, lowest byte first.
abbrev number : Bytes → ℕ
number [] = 0
number (b ∷ bs) = b + 256 * number bs

pub length-little_endian : (k n : ℕ) → length (little_endian k n) ≡ k
unfolding little_endian
length-little_endian zero n = refl
length-little_endian (suc k) n = ap suc (length-little_endian k (n / 256))

-- Two counters below 2 ^ 64 with the same eight bytes are the same.
pub put_uint64-injective : (n m : ℕ) → n < 2 ^ 64 → m < 2 ^ 64 → put_uint64 n ≡ put_uint64 m → n ≡ m
unfolding little_endian
put_uint64-injective n m hn hm e = omega (arith, ap number e)

pub create_identifier :
    (manager : RequestManager) (timeout : ℕ)
    → (create manager timeout).1.identifier ≡ put_uint64 ((manager.last_id + 1) % 2 ^ 64)
unfolding create
create_identifier manager timeout =
    copy-eq_src (make 8) (put_uint64 ((manager.last_id + 1) % 2 ^ 64)) (length-little_endian 8 _)

-- The pending requests carry the identifiers that were issued so far, each once.
pub record IsIssued (manager : RequestManager) : Type 0 where
  pub bounded : manager.last_id < 2 ^ 64
  pub distinct : Distinct bytes_discrete manager.pending
  pub issued :
      (id : RequestIdentifier) (r : Request)
      → find bytes_discrete id manager.pending ≡ some r
      → (r.identifier ≡ id) × ((j : ℕ) × (1 ≤ j) × (j ≤ manager.last_id) × (id ≡ put_uint64 j))

pub new_request_manager-IsIssued : IsIssued new_request_manager
unfolding new_request_manager find
new_request_manager-IsIssued = record {
  bounded = omega arith;
  distinct = tt;
  issued = λ id r h. cc;
}

issued-fresh :
    (manager : RequestManager) (timeout : ℕ)
    → IsIssued manager
    → manager.last_id + 1 < 2 ^ 64
    → find bytes_discrete (create manager timeout).1.identifier manager.pending ≡ none
issued-fresh manager timeout i h =
    elim (Option-cases
      (find bytes_discrete (create manager timeout).1.identifier manager.pending)) [
        | inl e ↦ e
        | inr (r, e) ↦
            let (same, (j, lo, hi, ej)) = i.issued (create manager timeout).1.identifier r e in
            absurd (
              omega (
                arith,
                put_uint64-injective j (manager.last_id + 1) (omega arith) h
                    (sym ej ∙ create_identifier manager timeout ∙ ap put_uint64 (omega arith)),
              ))
      ]

-- As long as the counter does not wrap, a new request has an identifier that no pending request has,
-- and is then pending beside all that were.
pub create-fresh :
    (manager : RequestManager) (timeout : ℕ)
    → IsIssued manager
    → manager.last_id + 1 < 2 ^ 64
    → let (after, request) = create manager timeout in
      (find bytes_discrete request.identifier manager.pending ≡ none)
      × ((k : RequestIdentifier)
          → find bytes_discrete k after.pending
            ≡ ite
                (bytes_discrete request.identifier k)
                (some request)
                (find bytes_discrete k manager.pending))
create-fresh manager timeout i h = (
  issued-fresh manager timeout i h,
  λ k.
      unfold create in
      find-insert bytes_discrete k (create manager timeout).1.identifier (create manager timeout).1
        manager.pending,
)

module _ (manager : RequestManager) (i : IsIssued manager) where
  issued_after :
      (id k : RequestIdentifier) (request r : Request) (last : ℕ)
      → request.identifier ≡ id
      → id ≡ put_uint64 last
      → last ≡ manager.last_id + 1
      → find bytes_discrete k (insert bytes_discrete id request manager.pending) ≡ some r
      → (r.identifier ≡ k) × ((j : ℕ) × (1 ≤ j) × (j ≤ last) × (k ≡ put_uint64 j))
  issued_after id k request r last he hid hl e = elim (bytes_discrete id k) [
    | yes same ↦
        let found = find-insert bytes_discrete k id request manager.pending in
        let req : request ≡ r = ground (arith, found) in
        (
          ap (λ (q : Request). q.identifier) (sym req) ∙ he ∙ same,
          (last, omega arith, omega arith, sym same ∙ hid),
        )
    | no differ ↦
        let found = find-insert bytes_discrete k id request manager.pending in
        let (a, (j, lo, hi, c)) = i.issued k r (ground (arith, found)) in
        (a, (j, lo, omega arith, c))
  ]

  -- Creating a request keeps the identifiers issued and distinct, while the counter does not wrap.
  pub create-IsIssued :
      (timeout : ℕ) → manager.last_id + 1 < 2 ^ 64 → IsIssued (create manager timeout).0
  unfolding create
  create-IsIssued timeout h =
      let last = (manager.last_id + 1) % 2 ^ 64 in
      let id = copy (make 8) (put_uint64 last) in
      let request : Request = record { identifier = id; timeout = timeout } in
      record {
        bounded = omega arith;
        distinct = insert-Distinct bytes_discrete id request manager.pending i.distinct;
        issued = λ k r e.
            issued_after id k request r last refl (create_identifier manager timeout) (omega arith)
              e;
      }

  pub deregister-IsIssued : (id : RequestIdentifier) → IsIssued (deregister manager id)
  unfolding deregister
  deregister-IsIssued id = record {
    bounded = i.bounded;
    distinct = delete-Distinct bytes_discrete id manager.pending i.distinct;
    issued = λ k r e.
        i.issued k r (ground (arith, find-delete bytes_discrete k id manager.pending i.distinct));
  }
