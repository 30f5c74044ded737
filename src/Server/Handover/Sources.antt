-- ===== src/Server/Handover/Sources.antt =====
-- Where the entries of Memcached come from.
use yeet_yoink.Common.{
  ℕ, ◌≡◌, refl, sym, ap, ◌∙◌, inl, inr, Bool, String, List, Option, none, some, Result, ok, err,
  arith, get_elem?, Option-cases,
}
use yeet_yoink.Crates.{Crates, IsStreaming}
use yeet_yoink.Distribution.{WriteSummary, GetFileReaderError}
use yeet_yoink.Distribution.Metadata
use yeet_yoink.Backend.{Backend, BackendCommand, distribute_file, FileProvider, DistributionError}
use yeet_yoink.Backend.Memcache.{Memcached, MemcacheBackend, as_backend, distribute_to_memcache}
use yeet_yoink.Backend.Memcache.Copies.{IsStore}
use yeet_yoink.Backend.Memcache.Entries.{IsAtomic, EachEntry, distribute_to_memcache-EachEntry}
use yeet_yoink.Backbone.Accessor.Lease.{through, get_file-through}
use yeet_yoink.Backbone.Reader.{FileReader}
use yeet_yoink.Backbone.Table.{get_file}
use yeet_yoink.Backbone.World.{World, Happens, Evolves, begun, after, new_world}
use yeet_yoink.Backbone.World.Stored.{Evolves-Vouches}
use yeet_yoink.Backbone.World.Vouches.{Happens-Vouches}
use yeet_yoink.Server.Registry.{distribute_one}
use yeet_yoink.Server.Handover.{
  Handover, Provides, world_moved, command_taken, entries_lost, handover_start, Progresses, outset,
  further, Stems, was_there, is_metadata, is_content,
}

module _ (K : Crates) (M : Memcached K) (S : IsStore M) where
  -- The world goes its own way.
  pub Progresses-Evolves :
      {listens : Bool} {b : MemcacheBackend K M} {p : Handover K M S}
      → Progresses K M S (handover_start K M S listens b) p
      → Evolves K (new_world K listens) p.world
  Progresses-Evolves outset = begun
  Progresses-Evolves (further r (world_moved w h room e)) = rw e (after (Progresses-Evolves r) h)
  Progresses-Evolves (further r (command_taken command provider disk b at provides h e)) =
      rw e (Progresses-Evolves r)
  Progresses-Evolves (further r (entries_lost pool loses e)) = rw e (Progresses-Evolves r)

  through-ok :
      (x : Option (Result (GetFileReaderError K) (FileReader K))) (file : FileReader K)
      → through K x ≡ some (ok file)
      → x ≡ some (ok file)
  through-ok none file h = absurd (ground arith)
  through-ok (some (err e)) file h = absurd (ground arith)
  through-ok (some (ok f)) file h = ground arith

  provider-get_file :
      (provider : FileProvider K) (w : World K) (disk : K.Disk) (id : K.ShortGuid)
      (file : FileReader K)
      → Provides K M S provider w disk
      → provider id ≡ ok file
      → get_file K w.backbone disk id ≡ some (ok file)
  provider-get_file provider w disk id file p h = through-ok (get_file K w.backbone disk id) file (
      sym (
        p.asks id
        ∙ get_file-through K p.bridge p.bridge' p.place p.living w.backbone disk id p.is_set
            p.lives)
      ∙ ap some h)

  Happens-Stems :
      (first : M.Pool) {start w v : World K} (key : String) (bytes : List ℕ)
      → Happens K w v
      → Stems K M S first start w key bytes
      → Stems K M S first start v key bytes
  Happens-Stems first key bytes h (was_there e) = was_there e
  Happens-Stems first key bytes h (is_metadata id s x e decoded) =
      is_metadata id s (Happens-Vouches K id s h x) e decoded
  Happens-Stems first key bytes h (is_content id s x e v disk file r found was_read) =
      is_content id s (Happens-Vouches K id s h x) e v disk file r found was_read

  distribute_one-distributes :
      (b0 : MemcacheBackend K M) (b : Backend K (MemcacheBackend K M)) (id : K.ShortGuid)
      (s : WriteSummary) (provider : FileProvider K)
      → distribute_one K
          (MemcacheBackend K M)
          (record { command = distribute_file id s; provider = provider })
          (as_backend K M b0)
        ≡ some b
      → (r : Result (DistributionError K) (Unit {0})) × (distribute_to_memcache K M b0 id s provider
          ≡ some (r, b.state))
  unfolding distribute_one
  distribute_one-distributes b0 b id s provider h =
      elim (Option-cases (distribute_to_memcache K M b0 id s provider)) [
        | inl e ↦ absurd (ground arith)
        | inr ((r, b1), e) ↦ (r, ground arith)
      ]

  module _ (atomic : IsAtomic M S) (streaming : IsStreaming K.digests) where
    abbrev AllStem : M.Pool → World K → Handover K M S → Type 0
    AllStem first start p = EachEntry K M S atomic (Stems K M S first start p.world) p.backend.pool

    command_taken-AllStem :
        (first : M.Pool) (listens : Bool) (p : Handover K M S) (command : BackendCommand K)
        (provider : FileProvider K) (disk : K.Disk) (b : Backend K (MemcacheBackend K M))
        → Evolves K (new_world K listens) p.world
        → get_elem? p.world.backbone.backend_sender.passed p.handled ≡ some command
        → Provides K M S provider p.world disk
        → distribute_one K
            (MemcacheBackend K M)
            (record { command = command; provider = provider })
            (as_backend K M p.backend)
          ≡ some b
        → AllStem first (new_world K listens) p
        → EachEntry K M S atomic (Stems K M S first (new_world K listens) p.world) b.state.pool
    unfolding Metadata.new
    command_taken-AllStem first listens p (distribute_file id s) provider disk b r at provides h
          old =
        let (outcome, done) = distribute_one-distributes p.backend b id s provider h in
        let vouched = Evolves-Vouches K streaming r p.handled id s at in
        distribute_to_memcache-EachEntry K M S atomic
          (Stems K M S first (new_world K listens) p.world) p.backend b.state id s provider
          (λ file bytes found was_read.
            is_content id s vouched refl p.world disk file r
              (provider-get_file provider p.world disk id file provides found) was_read)
          (λ bytes decoded. is_metadata id s vouched refl decoded) outcome done old

    -- If the digests are those of a stream, a message is decoded from its bytes, a successful `set`
    -- stores the whole value and a failed one that, nothing, or no change, and no `set` touches
    -- another key: then, in every run of the clients, the guards, the handlers, the command loop and
    -- the event loop, while entries expire, all that Memcached holds was there at the start or comes
    -- from an upload whose `finalize` has returned a summary of the bytes that its client handed to
    -- its writes: it is the metadata for that summary, under the key for the id, or what was read of
    -- a file that the backbone handed out for the id, under the other key for it.
    pub Progresses-Stems :
        {listens : Bool} {b : MemcacheBackend K M} {p : Handover K M S}
        → Progresses K M S (handover_start K M S listens b) p
        → (key : String) (bytes : List ℕ) → S.stored p.backend.pool key ≡ some bytes
        → Stems K M S b.pool (new_world K listens) p.world key bytes
    Progresses-Stems outset key bytes h = was_there h
    Progresses-Stems {b = b0} (further r (world_moved w x room e)) key bytes h =
        let h' = ap (λ q. S.stored q.backend.pool key) (sym e) ∙ h in
        rw e (Happens-Stems b0.pool key bytes x (Progresses-Stems r key bytes h'))
    Progresses-Stems {listens} {b = b0}
          (further {p} r (command_taken command provider disk b at provides x e)) key bytes h =
        let h' = ap (λ q. S.stored q.backend.pool key) (sym e) ∙ h in
        rw e (
          command_taken-AllStem b0.pool listens p command provider disk b (Progresses-Evolves r) at
            provides x (Progresses-Stems r) key bytes h')
    Progresses-Stems (further r (entries_lost pool loses e)) key bytes h =
        let h' = ap (λ q. S.stored q.backend.pool key) (sym e) ∙ h in
        elim (loses key) [
          | inl kept ↦ rw e (Progresses-Stems r key bytes (sym kept ∙ h'))
          | inr gone ↦ absurd (ground (arith, gone, h'))
        ]
