-- ===== src/Backbone/World.antt =====
-- The backbone and the guards that it handed out, at run time: the clients' calls, the lifetime
-- handlers and the command loop take turns, and a handler hears what its own guard has sent.
pub mod Guards
pub mod Handlers
pub mod Matched
pub mod Evolving
pub mod Vouches
pub mod Stored
pub mod Waking
use yeet_yoink.Common.{
  ℕ, ◌≡◌, Bool, true, false, List, [], ◌∷◌, ◌++◌, Option, none, some, Result, ok, err, get_elem?,
  set,
}
use yeet_yoink.Crates.{Crates}
use yeet_yoink.Distribution.{WriteSummary}
use yeet_yoink.Backbone.Guard.{FileWriterGuard, finalize}
use yeet_yoink.Backbone.Guard.Life.{GuardCall, Ending, call, finish, summary_of}
use yeet_yoink.Backbone.Guard.Calls.{bytes_of}
use yeet_yoink.Backbone.Record.{Answer, received, locked, sent, slept, BackboneCommand}
use yeet_yoink.Backbone.Guard.{success, failed}
use yeet_yoink.Backbone.Table.{Backbone, NewFile, NewFileError, new, new_file, handle_command}
use yeet_yoink.Backbone.System.{Permits, run_handler}

module _ (K : Crates) where
  -- A guard with the request that it was made for, the sender that it was made with, the bytes that
  -- its client has handed to `write`, and what its `finalize` has returned.
  pub record Upload : Type 0 where
    pub request : NewFile K
    pub tx : K.OneshotSender
    pub guard : FileWriterGuard K
    pub fed : List ℕ
    pub is_open : Bool
    pub returned : Option WriteSummary

  abbrev pub begin_upload : NewFile K → K.OneshotSender → FileWriterGuard K → Upload
  begin_upload request tx g = record {
    request = request;
    tx = tx;
    guard = g;
    fed = [];
    is_open = true;
    returned = none;
  }

  unfoldable pub call_upload : Upload → GuardCall → Upload
  call_upload u c = record u { guard = call K u.guard c; fed = u.fed ++ bytes_of c }

  -- The client drops its guard, or finalizes it, which takes the guard.
  unfoldable pub end_upload : Upload → Ending → Upload
  unfolding summary_of
  end_upload u e = record u {
    guard = finish K u.guard e;
    is_open = false;
    returned = summary_of K u.guard e;
  }

  -- The uploads in the order in which their guards were handed out, which is that of the lifetimes.
  pub record World : Type 0 where
    pub backbone : Backbone K
    pub uploads : List Upload

  abbrev pub new_world : Bool → World
  new_world listens = record { backbone = new K listens; uploads = [] }

  -- What the oneshot receiver yields: the first message that the sender sent, or its closing when the
  -- guard has gone without one. `delivers` says that the receiver is there.
  abbrev pub Hears : Upload → Answer → Type 0
  Hears u (received (ok m)) = (K.delivers u.tx ≡ true) × (get_elem? u.guard.sent 0 ≡ some m)
  Hears u (received (err _)) = (K.delivers u.tx ≡ true) × (u.is_open ≡ false) × (u.guard.sent ≡ [])
  Hears u _ = Unit

  pub data Happens (w v : World) : Type 0 where
    file_opened :
        (disk : K.Disk) (f : NewFile K) (tx : K.OneshotSender) (now : ℕ) (g : FileWriterGuard K)
        → (new_file K w.backbone disk f tx now).0 ≡ ok g
        → v ≡ record {
          backbone = (new_file K w.backbone disk f tx now).1;
          uploads = w.uploads ++ begin_upload f tx g ∷ [];
        }
        → Happens w v
    file_refused :
        (disk : K.Disk) (f : NewFile K) (tx : K.OneshotSender) (now : ℕ) (e : NewFileError K)
        → (new_file K w.backbone disk f tx now).0 ≡ err e
        → v ≡ record w { backbone = (new_file K w.backbone disk f tx now).1 }
        → Happens w v
    guard_called :
        (i : ℕ) (u : Upload) (c : GuardCall)
        → get_elem? w.uploads i ≡ some u
        → u.is_open ≡ true
        → v ≡ record w { uploads = set w.uploads i (call_upload u c) }
        → Happens w v
    guard_ended :
        (i : ℕ) (u : Upload) (e : Ending)
        → get_elem? w.uploads i ≡ some u
        → u.is_open ≡ true
        → v ≡ record w { uploads = set w.uploads i (end_upload u e) }
        → Happens w v
    handler_ran :
        (i : ℕ) (u : Upload) (a : Answer) (b : Backbone K)
        → get_elem? w.uploads i ≡ some u
        → Hears u a
        → Permits K w.backbone a
        → run_handler K w.backbone i a ≡ some b
        → v ≡ record w { backbone = b }
        → Happens w v
    command_handled :
        (command : BackboneCommand K) (rest : List (BackboneCommand K))
        → w.backbone.commands ≡ command ∷ rest
        → v
          ≡ record w { backbone = handle_command K (record w.backbone { commands = rest }) command }
        → Happens w v

  pub data Evolves (start : World) : World → Type 0 where
    begun : Evolves start start
    after : {w v : World} → Evolves start w → Happens w v → Evolves start v
