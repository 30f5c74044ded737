-- ===== src/Backbone/System.antt =====
-- The backbone at run time: clients, lifetime handlers and the command loop take turns.
-- Every step is one run from a wait to the next, so any interleaving is a sequence of steps.
pub mod Duties
pub mod Each
pub mod Links
pub mod Entries
pub mod Access
pub mod Announce
pub mod Progress
pub mod Quiet
pub mod Closing
pub mod Draining
pub mod Followed
use yeet_yoink.Common.{
  ℕ, ◌<◌, ◌≡◌, ◌++◌, true, List, ◌∷◌, Option, none, some, length, set, get_elem?, Option-cases,
  Result-cases, ◌⊎◌, inl, inr, arith, [],
}
use yeet_yoink.Crates.{Crates}
use yeet_yoink.Backbone.Record.{Lifetime, Answer, received, locked, sent, slept, lifetime_handler}
use yeet_yoink.Backbone.Record.{BackboneCommand, new_record}
use yeet_yoink.Common.Dict.{lookup, insert}
use yeet_yoink.Backbone.Table.{Backbone, NewFile, temporal_lease, new_file, handle_command}

-- `mpsc::channel(1024)` in `Backbone::new`
abbrev pub capacity : ℕ
capacity = 1024

abbrev pub IsAccepted : Answer → Type 0
IsAccepted (sent accepted now) = accepted ≡ true
IsAccepted _ = Unit

module _ (K : Crates) where
  install : Backbone K → ℕ → Option (Lifetime K × List (BackboneCommand K)) → Option (Backbone K)
  install b i none = none
  install b i (some (t, cs)) =
      some (record b { lifetimes = set b.lifetimes i t; commands = b.commands ++ cs })

  -- The handler of lifetime `i` runs on from its wait.
  unfoldable pub run_handler : Backbone K → ℕ → Answer → Option (Backbone K)
  unfolding install
  run_handler b i a = elim (get_elem? b.lifetimes i) [
    | none ↦ none
    | some t ↦ install b i (lifetime_handler K t a)
  ]

  pub run_handler-eq_some :
      (b : Backbone K) (i : ℕ) (a : Answer) {c : Backbone K}
      → run_handler b i a ≡ some c
      → (t t' : Lifetime K) × (cs : List (BackboneCommand K)) × (get_elem? b.lifetimes i ≡ some t)
        × (lifetime_handler K t a ≡ some (t', cs))
        × (c ≡ record b { lifetimes = set b.lifetimes i t'; commands = b.commands ++ cs })
  unfolding run_handler
  run_handler-eq_some b i a h = elim (Option-cases (get_elem? b.lifetimes i)) [
    | inl e ↦ absurd (ground arith)
    | inr (t, e) ↦ elim (Option-cases (lifetime_handler K t a)) [
      | inl f ↦ absurd (ground arith)
      | inr ((t', cs), f) ↦ (t, t', cs, e, f, ground arith)
    ]
  ]

  -- The backbone with a new entry for `f`.
  abbrev pub registered : Backbone K → NewFile K → K.TempFile → ℕ → Backbone K
  registered b f file now =
      let (r, t) = new_record K (length b.lifetimes) f.id file temporal_lease f.content_type now in
      record b {
        open_files = insert K.guid_eq f.id r b.open_files;
        lifetimes = b.lifetimes ++ t ∷ [];
      }

  -- `new_file` changes nothing, or adds an entry for an id that has none.
  pub new_file-cases :
      (b : Backbone K) (disk : K.Disk) (f : NewFile K) (tx : K.OneshotSender) (now : ℕ)
      → ((new_file K b disk f tx now).1 ≡ b)
        ⊎ ((file : K.TempFile) × (lookup K.guid_eq f.id b.open_files ≡ none)
            × ((new_file K b disk f tx now).1 ≡ registered b f file now))
  unfolding new_file
  new_file-cases b disk f tx now = elim (Result-cases (K.new_with_uuid disk (K.uuid_of f.id))) [
    | inr (e, h) ↦ inl (ground arith)
    | inl (file, h) ↦ elim (Result-cases (K.open_writer disk file)) [
      | inr (e, k) ↦ inl (ground arith)
      | inl (w, k) ↦ elim (Option-cases (lookup K.guid_eq f.id b.open_files)) [
        | inr (r, m) ↦ inl (ground arith)
        | inl m ↦ inr (file, m, ground arith)
      ]
    ]
  ]

  -- A send waits for room. It cannot fail: the command loop keeps its receiver until every sender is
  -- gone, and the handler holds one.
  abbrev pub Permits : Backbone K → Answer → Type 0
  Permits b (sent accepted now) = (accepted ≡ true) × (length b.commands < capacity)
  Permits b _ = Unit

  pub Permits-IsAccepted : (b : Backbone K) (a : Answer) → Permits b a → IsAccepted a
  Permits-IsAccepted b (sent x now) h = h.0
  Permits-IsAccepted b _ h = tt

  pub data Step (b c : Backbone K) : Type 0 where
    client_step :
        (disk : K.Disk) (f : NewFile K) (tx : K.OneshotSender) (now : ℕ)
        → c ≡ (new_file K b disk f tx now).1
        → Step b c
    handler_step : (i : ℕ) (a : Answer) → Permits b a → run_handler b i a ≡ some c → Step b c
    loop_step :
        (command : BackboneCommand K) (rest : List (BackboneCommand K))
        → b.commands ≡ command ∷ rest
        → c ≡ handle_command K (record b { commands = rest }) command
        → Step b c

  pub data Reach (start : Backbone K) : Backbone K → Type 0 where
    here : Reach start start
    next : {b c : Backbone K} → Reach start b → Step b c → Reach start c
