-- ===== src/Server/Yoink/Answers.antt =====
-- What /yoink answers while the backbone runs.
use yeet_yoink.Common.{
  ℕ, ◌≡◌, ◌≢◌, refl, ap, ◌∙◌, ◌↔◌, ◌⊎◌, inl, inr, List, [], ◌∷◌, Option, none, some, ok, err, Bool,
  arith, get_elem?, Result-cases,
}
use yeet_yoink.Crates.{Crates}
use yeet_yoink.Distribution.{
  WriteSummary, GetFileReaderError, unknown_file, file_expired, file_error,
}
use yeet_yoink.Backbone.Reader.{FileReader}
use yeet_yoink.Backbone.Record.{
  Lifetime, Phase, awaiting_result, closing, persisting, announcing, leasing, removing, finished,
}
use yeet_yoink.Common.Dict.{lookup}
use yeet_yoink.Backbone.Table.{Backbone, new, open_entry}
use yeet_yoink.Backbone.System.{Reach}
use yeet_yoink.Backbone.System.Duties.{alive, duties, Reach-duties}
use yeet_yoink.Backbone.System.Access.{
  IsReadable, Serves, get_file-Serves, Entry-cases, open_entry-known,
}
use yeet_yoink.Metrics.Transfer.{TransferMethod}
use yeet_yoink.Server.Http.{Response}
use yeet_yoink.Server.Yoink.{
  YoinkBody, stream, Clocks, file_headers, map_file_reader_error_to_response, respond, do_yoink,
}

module _ (K : Crates) where
  module _ (b : Backbone K) (disk : K.Disk) (clocks : Clocks K) (t : Lifetime K) where
    -- The content of the file is handed out, with the headers for this summary.
    abbrev pub IsServed : Option WriteSummary → Type 0
    IsServed summary =
        (file : K.TempFile) × (reader : K.Reader) × (f : FileReader K) × (t.inner.file ≡ some file)
        × (K.open_reader disk file ≡ ok reader)
        × (f.inner ≡ reader)
        × (f.summary ≡ summary)
        × (do_yoink K b disk t.id clocks
            ≡ some (
              record { status = 200; headers = file_headers K t.id f clocks; body = stream f },
              TransferMethod.fetch ∷ [],
            ))

    -- The answer is the response to this error, with this status, and no transfer is tracked.
    abbrev pub IsRefused : GetFileReaderError K → ℕ → Type 0
    IsRefused e code =
        (do_yoink K b disk t.id clocks ≡ some (map_file_reader_error_to_response K e, []))
        × ((map_file_reader_error_to_response K e).status ≡ code)

    -- The file cannot be opened, and the answer is the response to that error.
    abbrev pub IsBroken : Type 0
    IsBroken =
        (file : K.TempFile) × (e : K.TempfileError) × (t.inner.file ≡ some file)
        × (K.open_reader disk file ≡ err e)
        × IsRefused (file_error t.id e) 500

    abbrev pub Answers : Phase → Type 0
    Answers (announcing s) = IsServed (some s) ⊎ IsBroken
    Answers (leasing deadline) = (s : WriteSummary) × (IsServed (some s) ⊎ IsBroken)
    Answers removing =
        ((t.inner.summary ≡ none) × IsRefused (file_expired t.id) 410)
        ⊎ ((s : WriteSummary) × (t.inner.summary ≡ some s) × (IsServed (some s) ⊎ IsBroken))
    Answers finished = Unit
    Answers _ = IsServed none ⊎ IsBroken

    readable-Answer :
        (summary : Option WriteSummary)
        → IsReadable K b disk t summary
        → IsServed summary ⊎ IsBroken
    unfolding do_yoink
    readable-Answer summary (file, e, inl (reader, f, opened, found, same, with_summary)) =
        inl (file, reader, f, e, opened, same, with_summary, ap (respond K t.id clocks) found)
    readable-Answer summary (file, e, inr (x, failed, found)) =
        inr (file, x, e, failed, (ap (respond K t.id clocks) found, refl))

    Serves-Answers : (p : Phase) → Serves K b disk t p → Answers p
    unfolding do_yoink
    Serves-Answers awaiting_result h = readable-Answer none h
    Serves-Answers closing h = readable-Answer none h
    Serves-Answers (persisting s) h = readable-Answer none h
    Serves-Answers (announcing s) h = readable-Answer (some s) h
    Serves-Answers (leasing deadline) (s, h) = (s, readable-Answer (some s) h)
    Serves-Answers removing (inl (e, gone)) = inl (e, (ap (respond K t.id clocks) gone, refl))
    Serves-Answers removing (inr (s, e, h)) = inr (s, e, readable-Answer (some s) h)
    Serves-Answers finished h = tt

  -- In a reachable state a download of a file whose lifetime handler runs is answered as the wait of
  -- the handler says. Until the summary of a successful write is stored, the content is handed out
  -- without digests, and from then to the end of the lease with those of the summary. While the
  -- removal waits to be sent, the content is handed out with the digests if a summary was stored, and
  -- the answer is 410 if none was. If the file cannot be opened the answer is 500. A transfer is
  -- tracked exactly if content is handed out.
  pub do_yoink-Answers :
      {listens : Bool} {b : Backbone K}
      → Reach K (new K listens) b
      → (disk : K.Disk) (clocks : Clocks K) (i : ℕ) (t : Lifetime K)
      → get_elem? b.lifetimes i ≡ some t
      → alive t.phase ≡ 1
      → Answers b disk clocks t t.phase
  do_yoink-Answers {b} reach disk clocks i t k live =
      Serves-Answers b disk clocks t t.phase (get_file-Serves K reach disk i t k live)

  not_404 :
      (e : GetFileReaderError K)
      → ((id : K.ShortGuid) → e ≢ unknown_file id)
      → (map_file_reader_error_to_response K e).status ≢ 404
  not_404 (unknown_file id) h x = h id refl
  not_404 (file_expired id) h x = omega arith
  not_404 (file_error id e) h x = omega arith

  -- In a reachable state a download always gets a response, and that is 404 exactly if no lifetime
  -- handler of the id runs and no removal of it is on its way.
  pub do_yoink-not_found_iff :
      {listens : Bool} {b : Backbone K}
      → Reach K (new K listens) b
      → (disk : K.Disk) (id : K.ShortGuid) (clocks : Clocks K)
      → (response : Response (YoinkBody K)) × (tracked : List TransferMethod) × (do_yoink K b disk
            id clocks
          ≡ some (response, tracked))
        × ((response.status ≡ 404) ↔ (duties K id b ≡ 0))
  unfolding do_yoink lookup
  do_yoink-not_found_iff {b} reach disk id clocks = elim (Entry-cases K reach disk id) [
    | inl (e, found) ↦ (
      map_file_reader_error_to_response K (unknown_file id),
      [],
      ap (respond K id clocks) found,
      (λ _. Reach-duties K id reach ∙ rw e refl, λ _. refl),
    )
    | inr (r, t, e, at, same, found) ↦ elim (Result-cases (open_entry K disk r t.inner)) [
      | inl (f, g) ↦ (
        record { status = 200; headers = file_headers K id f clocks; body = stream f },
        TransferMethod.fetch ∷ [],
        ap (respond K id clocks) (found ∙ ap some g),
        (λ x. absurd (omega arith), λ x. absurd (ground (arith, Reach-duties K id reach))),
      )
      | inr (x, g) ↦ (
        map_file_reader_error_to_response K x,
        [],
        ap (respond K id clocks) (found ∙ ap some g),
        (
          λ y. absurd (not_404 x (λ j z. open_entry-known K disk r t.inner j (rw (g, z) refl)) y),
          λ y. absurd (ground (arith, Reach-duties K id reach)),
        ),
      )
    ]
  ]
