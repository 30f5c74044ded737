-- ===== src/Backbone/World/Waking.antt =====
-- The first wait of a lifetime handler: it lasts as long as the guard holds its sender, and ends.
use yeet_yoink.Common.{
  ℕ, ◌≡◌, refl, ◌⊎◌, inl, inr, true, false, Bool, [], ◌∷◌, ◌++◌, none, some, ok, arith, get_elem?,
  set, get_elem?-set_self,
}
use yeet_yoink.Crates.{Crates, IsStreaming}
use yeet_yoink.Distribution.{WriteSummary}
use yeet_yoink.Backbone.Guard.{success, failed, WriteResult}
use yeet_yoink.Backbone.Record.{
  Lifetime, Phase, awaiting_result, closing, persisting, received, lifetime_handler, turn,
}
use yeet_yoink.Backbone.Table.{Backbone}
use yeet_yoink.Backbone.System.{run_handler}
use yeet_yoink.Backbone.World.{Upload, World, Happens, handler_ran, Evolves, new_world}
use yeet_yoink.Backbone.World.Guards.{Told}
use yeet_yoink.Backbone.World.Evolving.{Evolves-Matched, upload-lifetime}

module _ (K : Crates) where
  abbrev after_message : Lifetime K → WriteResult → Phase
  after_message t (success s) = persisting s
  after_message t failed = closing

  abbrev moved : Backbone K → ℕ → Lifetime K → WriteResult → Backbone K
  moved b i t m = record b {
    lifetimes = set b.lifetimes i (record t { phase = after_message t m });
    commands = b.commands ++ [];
  }

  run_handler-message :
      (b : Backbone K) (i : ℕ) (t : Lifetime K) (m : WriteResult)
      → get_elem? b.lifetimes i ≡ some t
      → t.phase ≡ awaiting_result
      → run_handler K b i (received (ok m)) ≡ some (moved b i t m)
  unfolding run_handler lifetime_handler turn
  run_handler-message b i t (success s) h p = ground arith
  run_handler-message b i t failed h p = ground arith

  -- A step after which the handler of upload `i` has left its first wait, by the outcome of
  -- `finalize`: to persist the summary that was returned, or to close the file.
  pub record Wakes (w : World K) (i : ℕ) (u : Upload K) : Type 0 where
    pub next_world : World K
    pub happens : Happens K w next_world
    pub lifetime : Lifetime K
    pub is_there : get_elem? next_world.backbone.lifetimes i ≡ some lifetime
    pub goes_on :
        ((u.returned ≡ none) × (lifetime.phase ≡ closing))
        ⊎ ((s : WriteSummary) × (u.returned ≡ some s) × (lifetime.phase ≡ persisting s))

  message-Wakes :
      (w : World K) (i : ℕ) (u : Upload K) (t : Lifetime K) (m : WriteResult)
      → get_elem? w.uploads i ≡ some u
      → get_elem? w.backbone.lifetimes i ≡ some t
      → t.phase ≡ awaiting_result
      → K.delivers u.tx ≡ true
      → u.guard.sent ≡ m ∷ []
      → (((u.returned ≡ none) × (after_message t m ≡ closing))
          ⊎ ((s : WriteSummary) × (u.returned ≡ some s) × (after_message t m ≡ persisting s)))
      → Wakes w i u
  message-Wakes w i u t m k l p alive e goes = record {
    next_world = record w { backbone = moved w.backbone i t m };
    happens =
        handler_ran i u (received (ok m)) (moved w.backbone i t m) k (alive, ground arith) tt
          (run_handler-message w.backbone i t m l p) refl;
    lifetime = record t { phase = after_message t m };
    is_there = get_elem?-set_self w.backbone.lifetimes i (record t { phase = after_message t m }) l;
    goes_on = goes;
  }

  Told-Wakes :
      (w : World K) (i : ℕ) (u : Upload K) (t : Lifetime K)
      → get_elem? w.uploads i ≡ some u
      → get_elem? w.backbone.lifetimes i ≡ some t
      → t.phase ≡ awaiting_result
      → K.delivers u.tx ≡ true
      → Told K u
      → Wakes w i u
  Told-Wakes w i u t k l p alive (inl (e, none_returned)) =
      message-Wakes w i u t failed k l p alive e (inl (none_returned, refl))
  Told-Wakes w i u t k l p alive (inr (s, e, a)) =
      message-Wakes w i u t (success s) k l p alive e (inr (s, a.returned, refl))

  -- In every run in which each lifetime handler hears what its own guard has sent, and the digests
  -- are those of a stream: a handler does not wait for a guard that is gone. If the client has
  -- dropped or finalized its guard, the receiver is there, and the handler is still in its first
  -- wait, then it can go on at once, to persist the summary that `finalize` has returned, or to
  -- close the file if there was none.
  pub Evolves-Wakes :
      IsStreaming K.digests
      → {listens : Bool} {w : World K} → Evolves K (new_world K listens) w
      → (i : ℕ) (u : Upload K) (t : Lifetime K) → get_elem? w.uploads i ≡ some u
      → get_elem? w.backbone.lifetimes i ≡ some t
      → u.is_open ≡ false
      → K.delivers u.tx ≡ true
      → t.phase ≡ awaiting_result
      → Wakes w i u
  Evolves-Wakes streaming {w = w} r i u t k l is_closed alive p =
      let fit = (Evolves-Matched K streaming r).fits i u t k l in
      elim fit.sound [
        | inl running ↦ absurd (ground (arith, running.is_open))
        | inr ended ↦ Told-Wakes w i u t k l p alive (ended.told alive)
      ]

  -- The lifetime of upload `i` waits for its message.
  abbrev pub Awaits : World K → ℕ → Upload K → Type 0
  Awaits w i u =
      (t : Lifetime K) × (get_elem? w.backbone.lifetimes i ≡ some t)
      × (t.id ≡ u.request.id)
      × (t.phase ≡ awaiting_result)

  -- In every run in which each lifetime handler hears what its own guard has sent, and the digests
  -- are those of a stream: as long as a guard holds its sender, its lifetime handler is there and waits for
  -- the message; so the receiver has not been dropped.
  pub Evolves-awaiting :
      IsStreaming K.digests
      → {listens : Bool} {w : World K} → Evolves K (new_world K listens) w
      → (i : ℕ) (u : Upload K) (tx : K.OneshotSender) → get_elem? w.uploads i ≡ some u
      → u.guard.sender ≡ some tx
      → Awaits w i u
  Evolves-awaiting streaming {w = w} r i u tx k has =
      let (t, l, fit) = upload-lifetime K w i u (Evolves-Matched K streaming r) k in
      elim fit.sound [
        | inl running ↦ (t, l, fit.same_id, fit.waits (ground (arith, running.signals)))
        | inr ended ↦ absurd (ground (arith, ended.no_sender))
      ]
