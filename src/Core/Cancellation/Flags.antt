-- ===== src/Core/Cancellation/Flags.antt =====
-- The registered flags never share a cell, so one cancellation cannot stop another fetch.
use offset_explorer_oxide.Common.{
  ℕ, suc, ◌<◌, String, ◌≡◌, refl, ◌∙◌, ◌≢◌, Bool, true, false, ◌||◌, Option, none, some, List, [],
  ◌∷◌, arith, if◌then◌else◌, unwrap_or, inl, inr, Bool-cases, Option-cases,
}
use offset_explorer_oxide.Common.Equality.{◌==◌ as key_eq, string_eq}
use offset_explorer_oxide.Common.Dict.{
  lookup, insert, lookup-nil, lookup-cons, lookup-insert, lookup-remove, Distinct, insert-Distinct,
  remove-Distinct,
}
use offset_explorer_oxide.Core.Cancellation.{
  FetchCancellations, store, entry, begin, begin_for_connection, cancel, owned_by, cancel_each,
  cancel_all_for_connection, finish, Event, begins, cancels, finishes, disconnects, begins_for,
  step, run,
}

-- The registered flags are allocated and distinct, and a fetch has one owner at most.
pub record IsSound (s : FetchCancellations) : Type 0 where
  pub allocated : (i : String) (a : ℕ) → lookup i s.flags ≡ some a → a < s.next
  pub separate :
      (i j : String) (a : ℕ) → lookup i s.flags ≡ some a → lookup j s.flags ≡ some a → i ≡ j
  pub single : Distinct s.owners

-- What the flag registered under an id reads.
abbrev pub read : (ℕ → Bool) → Option ℕ → Option Bool
read cells none = none
read cells (some a) = some (cells a)

abbrev pub flag : String → FetchCancellations → Option Bool
flag id s = read s.cells (lookup id s.flags)

pub entry_found :
    (s : FetchCancellations) (i : String) (a : ℕ) → lookup i s.flags ≡ some a → entry s i ≡ (s, a)
unfolding entry
entry_found s i a h = rw (h, entry)

abbrev grown : FetchCancellations → String → FetchCancellations
grown s i = record s {
  flags = insert i s.next s.flags;
  cells = store s.cells s.next false;
  next = suc s.next;
}

pub entry_missing :
    (s : FetchCancellations) (i : String)
    → lookup i s.flags ≡ none
    → entry s i ≡ (grown s i, s.next)
unfolding entry
entry_missing s i h = rw (h, entry)

grown-IsSound : (s : FetchCancellations) (i : String) → IsSound s → IsSound (grown s i)
grown-IsSound s i v = record {
  allocated = λ j a h. ground (arith, lookup-insert i j s.next s.flags, v.allocated j a);
  separate = λ j k a h g. ground (
    arith,
    string_eq.agrees i j,
    string_eq.agrees i k,
    lookup-insert i j s.next s.flags,
    lookup-insert i k s.next s.flags,
    v.allocated j a,
    v.allocated k a,
    v.separate j k a,
  );
  single = v.single;
}

pub entry-IsSound : (s : FetchCancellations) (i : String) → IsSound s → IsSound (entry s i).0
entry-IsSound s i v = elim (Option-cases (lookup i s.flags)) [
  | inl h ↦ rw (entry_missing s i h) (grown-IsSound s i v)
  | inr (a, h) ↦ rw (entry_found s i a h) v
]

-- The entry of an id, as it was or fresh.
pub lookup-entry :
    (s : FetchCancellations) (i j : String)
    → lookup j (entry s i).0.flags ≡ (if key_eq i j then some (entry s i).1 else lookup j s.flags)
lookup-entry s i j = elim (Option-cases (lookup i s.flags)) [
  | inl h ↦ rw (entry_missing s i h) (lookup-insert i j s.next s.flags)
  | inr (a, h) ↦ rw (entry_found s i a h) (ground (arith, string_eq.agrees i j))
]

-- Asking for an entry changes what no flag reads, but that a new flag reads false.
pub flag-entry :
    (s : FetchCancellations) (i j : String)
    → IsSound s
    → flag j (entry s i).0 ≡ (if key_eq i j then some (unwrap_or (flag i s) false) else flag j s)
flag-entry s i j v = elim (Option-cases (lookup i s.flags)) [
  | inl h ↦ rw (entry_missing s i h) (
      ground (
        arith,
        string_eq.agrees i j,
        lookup-insert i j s.next s.flags,
        Option-cases (lookup j s.flags),
        v.allocated j s.next,
        fresh,
      ))
  | inr (a, h) ↦ rw (entry_found s i a h) (ground (arith, string_eq.agrees i j))
]
  where
    fresh : read (store s.cells s.next false) (lookup j s.flags) ≡ read s.cells (lookup j s.flags)
    fresh = elim (Option-cases (lookup j s.flags)) [
      | inl g ↦ rw g
      | inr (b, g) ↦ rw g (ground (arith, v.allocated j b g))
    ]

pub cancel-IsSound : (s : FetchCancellations) (i : String) → IsSound s → IsSound (cancel s i)
unfolding cancel
cancel-IsSound s i v =
    let w = entry-IsSound s i v in
    record { allocated = w.allocated; separate = w.separate; single = w.single }

store_apart :
    (s : FetchCancellations) (i j : String) (b : Bool) (a : ℕ)
    → IsSound s
    → lookup i s.flags ≡ some a
    → i ≢ j
    → read (store s.cells a b) (lookup j s.flags) ≡ read s.cells (lookup j s.flags)
store_apart s i j b a v h apart = elim (Option-cases (lookup j s.flags)) [
  | inl g ↦ rw g
  | inr (c, g) ↦ rw g (ground (arith, v.separate i j a h, apart))
]

-- A cancellation sets the flag of its own id, registered or not, and no other flag.
pub flag-cancel :
    (s : FetchCancellations) (i j : String)
    → IsSound s
    → flag j (cancel s i) ≡ (if key_eq i j then some true else flag j s)
unfolding cancel
flag-cancel s i j v = elim (Bool-cases (key_eq i j)) [
  | inl h ↦ ground (arith, lookup-entry s i j)
  | inr h ↦
      let apart : i ≢ j = λ e. ground (arith, string_eq.agrees i j, e, h) in
      rw h (
        store_apart (entry s i).0 i j true (entry s i).1 (entry-IsSound s i v) own apart
        ∙ flag-entry s i j v
        ∙ rw h)
]
  where
    own : lookup i (entry s i).0.flags ≡ some (entry s i).1
    own = ground (arith, lookup-entry s i i, string_eq.agrees i i)

pub finish-IsSound : (s : FetchCancellations) (i : String) → IsSound s → IsSound (finish s i)
unfolding finish
finish-IsSound s i v = record {
  allocated = λ j a h. ground (arith, lookup-remove i j s.flags, v.allocated j a);
  separate = λ j k a h g.
      ground (arith, lookup-remove i j s.flags, lookup-remove i k s.flags, v.separate j k a);
  single = remove-Distinct i s.owners v.single;
}

pub flag-finish :
    (s : FetchCancellations) (i j : String)
    → flag j (finish s i) ≡ (if key_eq i j then none else flag j s)
unfolding finish
flag-finish s i j = ground (arith, lookup-remove i j s.flags)

pub owners-entry : (s : FetchCancellations) (i : String) → (entry s i).0.owners ≡ s.owners
unfolding entry
owners-entry s i = ground arith

pub owners-cancel : (s : FetchCancellations) (i : String) → (cancel s i).owners ≡ s.owners
unfolding cancel
owners-cancel s i = owners-entry s i

pub owned-IsSound :
    (s : FetchCancellations) (i connection : String)
    → IsSound s
    → IsSound (record s { owners = insert i connection s.owners })
owned-IsSound s i connection v = record {
  allocated = v.allocated;
  separate = v.separate;
  single = insert-Distinct i connection s.owners v.single;
}

-- Membership of an id in a list, as a test.
abbrev pub listed : String → List String → Bool
listed j [] = false
listed j (i ∷ ids) = key_eq i j || listed j ids

pub cancel_each-IsSound :
    (s : FetchCancellations) (ids : List String) → IsSound s → IsSound (cancel_each s ids)
unfolding cancel_each
cancel_each-IsSound s [] v = v
cancel_each-IsSound s (i ∷ ids) v = cancel_each-IsSound (cancel s i) ids (cancel-IsSound s i v)

flag-cancel_each :
    (s : FetchCancellations) (ids : List String) (j : String)
    → IsSound s
    → flag j (cancel_each s ids) ≡ (if listed j ids then some true else flag j s)
unfolding cancel_each
flag-cancel_each s [] j v = refl
flag-cancel_each s (i ∷ ids) j v =
    ground (arith, flag-cancel s i j v, flag-cancel_each (cancel s i) ids j (cancel-IsSound s i v))

pub owners-cancel_each :
    (s : FetchCancellations) (ids : List String) → (cancel_each s ids).owners ≡ s.owners
unfolding cancel_each
owners-cancel_each s [] = refl
owners-cancel_each s (i ∷ ids) = owners-cancel_each (cancel s i) ids ∙ owners-cancel s i

-- The owner of an id is a given connection.
abbrev pub owns : Option String → String → Bool
owns none connection = false
owns (some c) connection = key_eq c connection

listed-owned_by :
    (connection j : String) (m : List (String × String))
    → Distinct m
    → listed j (owned_by connection m) ≡ owns (lookup j m) connection
unfolding owned_by
listed-owned_by connection j [] d = rw (lookup-nil {V = String} j)
listed-owned_by connection j ((i, c) ∷ m) d =
    ground
      (arith, string_eq.agrees i j, lookup-cons i j c m, listed-owned_by connection j m d.1, d.0)

-- Disconnecting a connection sets the flags of the fetches that read from it, and no other flag;
-- the ids that it reports are those of these fetches.
pub flag-cancel_all_for_connection :
    (s : FetchCancellations) (connection j : String)
    → IsSound s
    → (flag j (cancel_all_for_connection s connection).0
        ≡ (if owns (lookup j s.owners) connection then some true else flag j s))
      × (listed j (cancel_all_for_connection s connection).1 ≡ owns (lookup j s.owners) connection)
unfolding cancel_all_for_connection
flag-cancel_all_for_connection s connection j v =
    let members = listed-owned_by connection j s.owners v.single in
    (flag-cancel_each s (owned_by connection s.owners) j v ∙ rw members, members)

-- Every call keeps the flags apart.
pub step-IsSound : (s : FetchCancellations) (e : Event) → IsSound s → IsSound (step s e)
unfolding step begin begin_for_connection cancel_all_for_connection
step-IsSound s (begins i) v = entry-IsSound s i v
step-IsSound s (begins_for i c) v = entry-IsSound _ i (owned-IsSound s i c v)
step-IsSound s (cancels i) v = cancel-IsSound s i v
step-IsSound s (finishes i) v = finish-IsSound s i v
step-IsSound s (disconnects c) v = cancel_each-IsSound s (owned_by c s.owners) v

pub run-IsSound : (h : List Event) → IsSound (run h)
unfolding run
run-IsSound [] = record {
  allocated = λ i a h. cc (lookup-nil {V = ℕ} i);
  separate = λ i j a h g. cc (lookup-nil {V = ℕ} i);
  single = tt;
}
run-IsSound (e ∷ h) = step-IsSound (run h) e (run-IsSound h)
