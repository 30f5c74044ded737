-- ===== src/Tests/Toy.antt =====
-- Stand-ins for the third-party crates: a digest is the stream itself, a writer is the file's bytes.
use yeet_yoink.Common.{
  leb, text_eq, some, none, ℕ, ◌≡◌, refl, ap, sym, ◌∙◌, String, true, List, [], ◌∷◌, ◌++◌, Result,
  ok, err, arith, length, take, nat_eq, decimal, ◌==◌, if◌then◌else◌, take-length, ◌≤◌,
}
use mathlib.Core.List.{append-nil, append_assoc}
use yeet_yoink.Crates.{
  Digests, IsStreaming, SharedFiles, IsAppending, IsProgressing, IsFresh, Crates, IoError, exactly,
  ready,
}

abbrev pub toy_digests : Digests
toy_digests = record {
  Md5Context = List ℕ;
  md5_new = [];
  md5_consume = λ c xs. c ++ xs;
  md5_compute = λ c. c;
  ShaContext = List ℕ;
  sha_new = [];
  sha_update = λ c xs. c ++ xs;
  sha_finalize_into = λ c buffer. c;
}

pub toy-IsStreaming : IsStreaming toy_digests
toy-IsStreaming = record {
  md5_consume-nil = λ c. append-nil c;
  md5_consume-append = λ c xs ys. sym (append_assoc c xs ys);
  sha_update-nil = λ c. append-nil c;
  sha_update-append = λ c xs ys. sym (append_assoc c xs ys);
}

-- The disk decides whether a file or a writer can be made; `cut` is what a write takes of a chunk.
abbrev pub toy_files : (List ℕ → List ℕ) → SharedFiles
toy_files cut = record {
  Disk = ℕ;
  Uuid = ℕ;
  TempfileError = ℕ;
  CompleteWritingError = ℕ;
  TempFile = ℕ;
  Writer = List ℕ;
  Reader = ℕ;
  new_with_uuid = λ disk u. if disk == 1 then err 28 else ok u;
  open_writer = λ disk file. if disk == 2 then err 24 else ok [];
  open_reader = λ disk file. if disk == 3 then err 2 else ok file;
  write = λ w chunk. (ok (length (cut chunk)), w ++ cut chunk);
  sync_data = λ w. (ok tt, w);
  complete = λ w. ok tt;
  complete_no_sync = λ w. ok tt;
  file_size = λ r. exactly 0;
  poll_read = λ r filled. (ready (ok tt), filled ++ 7 ∷ [], r);
}

abbrev pub toy_crates : (List ℕ → List ℕ) → Crates
toy_crates cut = record {
  digests = toy_digests;
  files = toy_files cut;
  ShortGuid = ℕ;
  guid_eq = nat_eq;
  guid_text = decimal;
  uuid_of = λ id. id;
  hex_encode = λ bytes. "hex";
  base64_encode = λ bytes. "base64";
  controls = λ c. leb c 31;
  utf8_percent_encode = λ set name. name;
  extension = λ t. if text_eq.beq t "text/plain" then some "txt" else none;
  ContentType = String;
  content_type_text = λ t. t;
  tempfile_error_text = decimal;
  BodyError = String;
  body_error_text = λ e. e;
  rfc1123 = decimal;
  OneshotSender = ℕ;
  delivers = λ tx. true;
}

-- Every write takes the whole chunk.
abbrev pub toy : Crates
toy = toy_crates (λ chunk. chunk)

-- A write takes two bytes at most.
abbrev pub short : Crates
short = toy_crates (take 2)

unfoldable pub toy-IsAppending : IsAppending toy.files
toy-IsAppending = record {
  written = λ w. w;
  write_ok = λ w chunk n e. whole w chunk n e;
  write_err = λ w chunk e h. cc;
  sync_keeps = λ w. refl;
}
  where
    whole :
        (w chunk : List ℕ) (n : ℕ)
        → ◌≡◌ {A = Result IoError ℕ} (ok (length chunk)) (ok n)
        → (n ≤ length chunk) × (w ++ chunk ≡ w ++ take n chunk)
    whole w chunk n e =
        let same : length chunk ≡ n = cc in
        (
          omega arith,
          ap (λ l. w ++ l) (sym (ap (λ k. take k chunk) (sym same) ∙ take-length chunk)),
        )

pub toy-IsFresh : IsFresh toy.files toy-IsAppending
unfolding toy-IsAppending
toy-IsFresh = record { written_new = λ disk u file w x y. ground arith }

pub toy-IsProgressing : IsProgressing toy.files
toy-IsProgressing = record { write_progress = λ w chunk e. none_taken chunk e }
  where
    none_taken :
        (chunk : List ℕ) → ◌≡◌ {A = Result IoError ℕ} (ok (length chunk)) (ok 0) → chunk ≡ []
    none_taken [] e = refl
    none_taken (x ∷ xs) e = absurd (ground arith)
