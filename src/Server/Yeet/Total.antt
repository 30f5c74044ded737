-- ===== src/Server/Yeet/Total.antt =====
-- Every upload comes to an answer: fuel of the longest chunk is enough.
use yeet_yoink.Common.{
  ℕ, ◌≤◌, ◌≡◌, refl, ap, ◌≢◌, inl, inr, List, [], ◌∷◌, none, some, Result, ok, err, arith, length,
  String, ◌<>◌, Result-cases, Option-cases,
}
use yeet_yoink.Crates.{Crates, IsProgressing}
use yeet_yoink.Backbone.Writer.{FileWriter, SynchronizationError, synchronization_text}
use yeet_yoink.Backbone.Writer
use yeet_yoink.Backbone.Guard.{FileWriterGuard}
use yeet_yoink.Backbone.Guard
use yeet_yoink.Backbone.Table.{Backbone, NewFile, new_file}
use yeet_yoink.Backbone.Table.Opens.{new_file-Opened}
use yeet_yoink.Server.Yeet.{Clocks, take_chunk, take_stream, store, do_yeet}
use yeet_yoink.Server.Yeet.Writes.{IsOpen, write_data-total}
use yeet_yoink.Server.Yeet.Streams.{Fuels}

module _ (K : Crates) (progress : IsProgressing K.files) (f : ℕ) where
  sync_data-total :
      (g : FileWriterGuard K)
      → IsOpen K g
      → (r : Result (SynchronizationError K) (Unit {0})) × (g' : FileWriterGuard K)
        × (Guard.sync_data K g ≡ some (r, g'))
        × IsOpen K g'
  unfolding Guard.sync_data
  sync_data-total g (w, e) =
      let (r, w') = Writer.sync_data K w in
      (r, record g { inner = some w' }, ground arith, (w', refl))

  take_chunk-total :
      (g : FileWriterGuard K) (chunk : List ℕ)
      → length chunk ≤ f
      → IsOpen K g
      → (r : Result String (Unit {0})) × (g' : FileWriterGuard K) × (take_chunk K f g chunk
          ≡ some (r, g'))
        × IsOpen K g'
  unfolding take_chunk
  take_chunk-total g chunk fits o =
      let (r, g1, e, o1) = write_data-total K progress f g chunk fits o in
      elim (Result-cases r) [
        | inr (x, y) ↦
            (err ("Failed to write to temporary file: " <> x.message), g1, ground (arith, e, y), o1)
        | inl (_, y) ↦
            let (r2, g2, e2, o2) = sync_data-total g1 o1 in
            elim (Result-cases r2) [
              | inl (_, z) ↦ (ok tt, g2, ground (arith, e, y, e2, z), o2)
              | inr (x, z) ↦ (
                err ("Failed to flush data to temporary file: " <> synchronization_text x),
                g2,
                ground (arith, e, y, e2, z),
                o2,
              )
            ]
      ]

  take_stream-total :
      (g : FileWriterGuard K) (stream : List (Result K.BodyError (List ℕ)))
      → Fuels f stream
      → IsOpen K g
      → take_stream K f g stream ≢ none
  unfolding take_stream
  take_stream-total g [] fits o h = ground arith
  take_stream-total g (err e ∷ stream) fits o h = ground arith
  take_stream-total g (ok chunk ∷ stream) fits o h =
      let (r, g1, e, o1) = take_chunk-total g chunk fits.0 o in
      elim (Result-cases r) [
        | inr (x, y) ↦ ground (arith, e, y)
        | inl (_, y) ↦ take_stream-total g1 stream fits.1 o1 (ground (arith, e, y))
      ]

  store-total :
      (id : K.ShortGuid) (g : FileWriterGuard K) (stream : List (Result K.BodyError (List ℕ)))
      (clocks : Clocks K)
      → Fuels f stream
      → IsOpen K g
      → store K f id g stream clocks ≢ none
  unfolding store
  store-total id g stream clocks fits o h = elim (Option-cases (take_stream K f g stream)) [
    | inl e ↦ take_stream-total g stream fits o e
    | inr ((err x, g1), e) ↦ ground arith
    | inr ((ok _, g1), e) ↦ ground arith
  ]

  -- If a write of some bytes takes at least one of them and no chunk of the stream is longer than
  -- the fuel, `do_yeet` comes to an answer: it neither loops for ever nor meets a closed guard.
  pub do_yeet-total :
      (b : Backbone K) (disk : K.Disk) (request : NewFile K) (tx : K.OneshotSender) (now : ℕ)
      (stream : List (Result K.BodyError (List ℕ))) (clocks : Clocks K)
      → Fuels f stream
      → do_yeet K f b disk request tx now stream clocks ≢ none
  unfolding do_yeet
  do_yeet-total b disk request tx now stream clocks fits h =
      elim (Result-cases (new_file K b disk request tx now).0) [
        | inr (e, x) ↦ ground arith
        | inl (g, x) ↦
            let o = new_file-Opened K b disk request tx now g x in
            elim (Option-cases (store K f request.id g stream clocks)) [
              | inl y ↦
                  store-total request.id g stream clocks fits
                    (
                      Writer.new K o.writer request.file_name,
                      ap (λ (x : FileWriterGuard K). x.inner) o.is_new,
                    )
                    y
              | inr (z, y) ↦ ground arith
            ]
      ]
