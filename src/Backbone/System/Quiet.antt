-- ===== src/Backbone/System/Quiet.antt =====
-- Runs of the handlers and the command loop alone, and how the loop empties the channel.
use yeet_yoink.Common.{
  ℕ, ◌≡◌, refl, ◌∙◌, ◌≢◌, ◌⊎◌, inl, inr, List, [], ◌∷◌, none, some, arith, total, Result,
}
use yeet_yoink.Common.Dict.{lookup, lookup-erase}
use yeet_yoink.Crates.{Crates}
use yeet_yoink.Backbone.Guard.{WriteResult}
use yeet_yoink.Backbone.Record.{
  Answer, received, BackboneCommand, remove_writer, ready_for_distribution,
}
use yeet_yoink.Backbone.Table.{Backbone, handle_command}
use yeet_yoink.Backbone.System.{run_handler, Permits}
use yeet_yoink.Backbone.System.Duties.{removes}
use yeet_yoink.Backbone.System.Each.{handle_command-lifetimes}

-- An answer in a run in which every write ends with `r`.
abbrev pub Given : Result (Unit {0}) WriteResult → Answer → Type 0
Given r (received x) = x ≡ r
Given r _ = Unit

module _ (K : Crates) where
  -- Steps of handlers and of the command loop alone, in which every write ends with `r`.
  pub data Quiet (r : Result (Unit {0}) WriteResult) (start : Backbone K)
      : Backbone K → Type 0 where
    stay : Quiet r start start
    then_handler :
        {b c : Backbone K}
        → Quiet r start b
        → (i : ℕ) (a : Answer) → Given r a
        → Permits K b a
        → run_handler K b i a ≡ some c
        → Quiet r start c
    then_loop :
        {b : Backbone K}
        → Quiet r start b
        → (command : BackboneCommand K) (rest : List (BackboneCommand K))
        → b.commands ≡ command ∷ rest
        → Quiet r start (handle_command K (record b { commands = rest }) command)

  pub Quiet-trans :
      (r : Result (Unit {0}) WriteResult) {a b c : Backbone K}
      → Quiet r a b
      → Quiet r b c
      → Quiet r a c
  Quiet-trans r q stay = q
  Quiet-trans r q (then_handler s i a g p e) = then_handler (Quiet-trans r q s) i a g p e
  Quiet-trans r q (then_loop s command rest e) = then_loop (Quiet-trans r q s) command rest e

  handle_command-commands :
      (b : Backbone K) (command : BackboneCommand K)
      → (handle_command K b command).commands ≡ b.commands
  unfolding handle_command
  handle_command-commands b (remove_writer j) = refl
  handle_command-commands b (ready_for_distribution j s) = ground arith

  abbrev pub IsClosed : K.ShortGuid → Backbone K → Type 0
  IsClosed id b = lookup K.guid_eq id b.open_files ≡ none

  module _ (w : Result (Unit {0}) WriteResult) (id : K.ShortGuid) where
    handle_command-IsClosed :
        (b : Backbone K) (command : BackboneCommand K)
        → IsClosed id b ⊎ (removes K id command ≡ 1)
        → IsClosed id (handle_command K b command)
    unfolding handle_command
    handle_command-IsClosed b (remove_writer j) h =
        ground (arith, lookup-erase K.guid_eq id j b.open_files)
    handle_command-IsClosed b (ready_for_distribution j s) h = ground arith

    removes_cases :
        (command : BackboneCommand K) → (removes K id command ≡ 0) ⊎ (removes K id command ≡ 1)
    removes_cases (remove_writer j) = ground arith
    removes_cases (ready_for_distribution j s) = inl refl

    -- The command loop empties the channel; a removal on its way closes its file.
    pub flush :
        (b : Backbone K) (cs : List (BackboneCommand K))
        → b.commands ≡ cs
        → IsClosed id b ⊎ (total (removes K id) cs ≢ 0)
        → (c : Backbone K) × Quiet w b c × (c.commands ≡ []) × IsClosed id c
    flush b [] e (inl h) = (b, stay, e, h)
    flush b [] e (inr h) = absurd (h refl)
    flush b (command ∷ rest) e h =
        let c : Backbone K = handle_command K (record b { commands = rest }) command in
        let (d, r, x, y) = flush c rest (handle_command-commands _ command) left in
        (d, Quiet-trans w (then_loop stay command rest e) r, x, y)
      where
        after : Backbone K
        after = handle_command K (record b { commands = rest }) command

        left : IsClosed id after ⊎ (total (removes K id) rest ≢ 0)
        left = elim h [
          | inl shut ↦
              inl (handle_command-IsClosed (record b { commands = rest }) command (inl shut))
          | inr some_left ↦ elim (removes_cases command) [
            | inl zero_here ↦ inr (λ n. some_left (omega arith))
            | inr one_here ↦
                inl (handle_command-IsClosed (record b { commands = rest }) command (inr one_here))
          ]
        ]

  pub empty :
      (w : Result (Unit {0}) WriteResult) (b : Backbone K) (cs : List (BackboneCommand K))
      → b.commands ≡ cs
      → (c : Backbone K) × Quiet w b c × (c.commands ≡ []) × (c.lifetimes ≡ b.lifetimes)
  empty w b [] e = (b, stay, e, refl)
  empty w b (command ∷ rest) e =
      let c : Backbone K = handle_command K (record b { commands = rest }) command in
      let (d, r, x, y) = empty w c rest (handle_command-commands _ command) in
      (
        d,
        Quiet-trans w (then_loop stay command rest e) r,
        x,
        y ∙ handle_command-lifetimes K _ command,
      )
