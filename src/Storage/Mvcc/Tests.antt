-- ===== src/Storage/Mvcc/Tests.antt =====
-- A transaction on the memory engine, as an example of the theorems on transactions.
use space_db.Base.{
  ℕ, ◌≡◌, ◌≢◌, ◌≤◌, refl, ◌∙◌, [], ◌∷◌, none, some, true, false, inl, inr, ok, err, arith, ap,
  Bool-cases, ◌==◌,
}
use mathlib.Core.Path.{subst}
use space_db.Bytes.{Bytes, Slice, IsBytes}
use space_db.Storage.Errors.{write_conflict}
use space_db.Storage.Entries.{lookup}
use space_db.Storage.Memory.{MemoryEngine, memory_engine, new_memory_engine}
use space_db.Storage.Memory.Laws.{memory_laws}
use space_db.Storage.Key.{IsVersion}
use space_db.Storage.Versions.{Transaction, is_visible, contains, encode_versioned_value}
use space_db.Storage.Mvcc.{begin, commit, rollback, get, write}
use space_db.Storage.Mvcc.Store.{IsStore, version_at}
use space_db.Storage.Mvcc.Newest.{Newest}
use space_db.Storage.Mvcc.Snapshot.{get-Newest, get-ext}
use space_db.Storage.Mvcc.Write.{
  written, write_succeeds, write_conflicts, written-IsStore, write_keeps-IsStore,
  version_at-written_self, version_at-written_ne,
}
use space_db.Storage.Mvcc.Isolation.{get-write_self, get-write_other}
use space_db.Storage.Mvcc.Commit.{Committed, commit-Committed}
use space_db.Storage.Mvcc.Rollback.{IsLogged, Undone, rollback-Undone, get-rollback, write-IsLogged}
use space_db.Storage.Mvcc.Begin.{begun_state}
use space_db.Storage.Mvcc.Begun.{Begun, begin-Begun, begun_state-IsStore, versions_kept}

pub empty_store : IsStore memory_engine memory_laws 1 new_memory_engine
unfolding space_db.Storage.Entries.lookup space_db.Storage.Versions.load_next
empty_store = record {
  valid = tt;
  records = λ j v h. absurd (cc h);
  next_stored = refl;
  next_fits = omega arith;
  below_next = λ k v key other h. absurd (cc h);
}

-- The first transaction, and the state that it begins in.
abbrev pub first : Transaction
first = record { version = 1; active_versions = [] }

abbrev pub first_state : MemoryEngine
first_state = begun_state memory_engine memory_laws 1 new_memory_engine empty_store

pub first_store : IsStore memory_engine memory_laws 2 first_state
first_store =
    begun_state-IsStore memory_engine memory_laws 1 new_memory_engine empty_store (omega arith)

abbrev key : Bytes
key = 7 ∷ []

abbrev value : Slice
value = some (42 ∷ [])

-- The state after the first transaction has set the key.
abbrev second_state : MemoryEngine
second_state = written memory_engine memory_laws first key value false first_state

pub first_sees_itself : is_visible first 1 ≡ true
unfolding is_visible
first_sees_itself = refl

no_versions :
    (raw : Bytes) (u : ℕ)
    → IsBytes raw
    → IsVersion u
    → version_at memory_engine memory_laws raw u first_state ≡ none
unfolding space_db.Storage.Entries.lookup
no_versions raw u hr hu =
    versions_kept memory_engine memory_laws 1 new_memory_engine empty_store raw u hr hu

first-write : write memory_engine first key value false first_state ≡ (ok tt, second_state)
first-write =
    write_succeeds memory_engine memory_laws first key value false 2 first_state (omega arith)
      first_store (omega arith) (λ u v hu at. absurd (cc (at, no_versions key u (omega arith) hu)))

second_store : IsStore memory_engine memory_laws 2 second_state
second_store =
    written-IsStore memory_engine memory_laws first key value false 2 first_state (omega arith)
      first_store (omega arith) (omega arith)

first-IsLogged : IsLogged memory_engine memory_laws 1 second_state
first-IsLogged = subst (IsLogged memory_engine memory_laws 1) (ap (λ p. p.1) first-write) (
    write-IsLogged memory_engine memory_laws first key value false 2 first_state (omega arith)
      first_store (omega arith)
      (λ raw x hr at. absurd (cc (at, no_versions raw 1 hr (omega arith)))))

-- A second transaction begins before the first has ended.
abbrev second : Transaction
second = record { version = 2; active_versions = 1 ∷ [] }

abbrev third_state : MemoryEngine
third_state = begun_state memory_engine memory_laws 2 second_state second_store

third_store : IsStore memory_engine memory_laws 3 third_state
third_store =
    begun_state-IsStore memory_engine memory_laws 2 second_state second_store (omega arith)

key_versions :
    (u : ℕ)
    → IsVersion u
    → version_at memory_engine memory_laws key u third_state
      ≡ version_at memory_engine memory_laws key u second_state
key_versions u hu =
    versions_kept memory_engine memory_laws 2 second_state second_store key u (omega arith) hu

newest_is_first :
    (w : ℕ) (x : Slice)
    → IsVersion w
    → version_at memory_engine memory_laws key w third_state ≡ some x
    → w ≤ 1
newest_is_first w x hw at = elim (Bool-cases (w == 1)) [
  | inl same ↦ ground arith
  | inr other ↦
      let ne : 1 ≢ w = ground arith in
      absurd (
        cc (
          at,
          key_versions w hw,
          version_at-written_ne memory_engine memory_laws first key value false 2 first_state
              (omega arith) first_store (omega arith) key w (omega arith) hw (inr ne),
          no_versions key w (omega arith) hw,
        ))
]

first_is_hidden : is_visible second 1 ≡ false
unfolding is_visible
first_is_hidden = refl

write_succeeds_example :
    write memory_engine first key value false first_state ≡ (ok tt, second_state)
write_succeeds_example =
    write_succeeds memory_engine memory_laws first key value false 2 first_state (omega arith)
      first_store (omega arith) (λ u v hu at. absurd (cc (at, no_versions key u (omega arith) hu)))

write_conflicts_example :
    write memory_engine second key none true third_state ≡ (err write_conflict, third_state)
write_conflicts_example =
    write_conflicts memory_engine memory_laws second key none true 3 third_state (omega arith)
      third_store (omega arith) 1 (some (encode_versioned_value value false)) (omega arith)
      (key_versions 1 (omega arith)
        ∙ version_at-written_self memory_engine memory_laws first key value false 2 first_state
            (omega arith) first_store (omega arith))
      first_is_hidden newest_is_first

write_keeps-IsStore_example :
    IsStore memory_engine memory_laws 2 (write memory_engine first key value false first_state).1
write_keeps-IsStore_example =
    write_keeps-IsStore memory_engine memory_laws first key value false 2 first_state (omega arith)
      first_store (omega arith) (omega arith)

get-Newest_example :
    Newest first
      (λ u. version_at memory_engine memory_laws key u second_state)
      (get memory_engine first key second_state)
get-Newest_example =
    get-Newest memory_engine memory_laws key 2 second_state (omega arith) second_store first
      (omega arith)

get-ext_example :
    get memory_engine second key third_state ≡ get memory_engine second key second_state
get-ext_example =
    get-ext memory_engine memory_laws key 3 2 third_state second_state second (omega arith)
      third_store second_store (omega arith) (λ u hu vis. key_versions u hu)

get-write_self_example : get memory_engine first key second_state ≡ ok value
get-write_self_example =
    get-write_self memory_engine memory_laws first key value false 2 first_state (omega arith)
      first_store (omega arith) (omega arith) second_state first_sees_itself first-write

get-write_other_example :
    get memory_engine second key (write memory_engine first key none true third_state).1
    ≡ get memory_engine second key third_state
get-write_other_example =
    get-write_other memory_engine memory_laws first key none true 3 third_state (omega arith)
      third_store (omega arith) (omega arith) second key (omega arith) (omega arith)
      (inr first_is_hidden)

commit-Committed_example :
    (s' : MemoryEngine) × (commit memory_engine first third_state ≡ (ok tt, s'))
    × Committed memory_engine memory_laws first (omega arith) 3 third_state third_store s'
commit-Committed_example =
    commit-Committed memory_engine memory_laws first (omega arith) 3 third_state third_store

rollback-Undone_example :
    (s' : MemoryEngine) × (rollback memory_engine first second_state ≡ (ok tt, s'))
    × Undone memory_engine memory_laws first (omega arith) 2 second_state second_store s'
rollback-Undone_example =
    rollback-Undone memory_engine memory_laws first (omega arith) 2 second_state second_store
      first-IsLogged

get-rollback_example :
    get memory_engine second key (rollback memory_engine first second_state).1
    ≡ get memory_engine second key second_state
get-rollback_example =
    get-rollback memory_engine memory_laws first (omega arith) 2 second_state second_store second
      key first-IsLogged (omega arith) (omega arith) first_is_hidden

write-IsLogged_example :
    IsLogged memory_engine memory_laws 1 (write memory_engine first key none true second_state).1
write-IsLogged_example =
    write-IsLogged memory_engine memory_laws first key none true 2 second_state (omega arith)
      second_store (omega arith) first-IsLogged

begin-Begun_example :
    (t : Transaction) × (s' : MemoryEngine) × (begin memory_engine second_state ≡ (ok t, s'))
    × Begun memory_engine memory_laws 2 second_state second_store t s'
begin-Begun_example =
    begin-Begun memory_engine memory_laws 2 second_state second_store (omega arith)
