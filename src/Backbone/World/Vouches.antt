-- ===== src/Backbone/World/Vouches.antt =====
-- An upload that stands behind a summary does so in every later world.
use yeet_yoink.Common.{
  ℕ, ◌≡◌, ◌∙◌, true, List, [], ◌∷◌, ◌++◌, some, arith, get_elem?, set, get_elem?-set_ne,
  get_elem?-append,
}
use yeet_yoink.Crates.{Crates}
use yeet_yoink.Distribution.{WriteSummary}
use yeet_yoink.Backbone.World.{
  Upload, begin_upload, call_upload, end_upload, World, Happens, file_opened, file_refused,
  guard_called, guard_ended, handler_ran, command_handled,
}
use yeet_yoink.Backbone.World.Guards.{Approved}

module _ (K : Crates) where
  -- An upload for the id whose `finalize` has returned the summary.
  pub record Vouches (uploads : List (Upload K)) (id : K.ShortGuid) (s : WriteSummary)
      : Type 0 where
    pub place : ℕ
    pub upload : Upload K
    pub is_there : get_elem? uploads place ≡ some upload
    pub same_id : upload.request.id ≡ id
    pub approved : Approved K upload s

  Vouches-append :
      (us vs : List (Upload K)) (id : K.ShortGuid) (s : WriteSummary)
      → Vouches us id s
      → Vouches (us ++ vs) id s
  Vouches-append us vs id s v = record {
    place = v.place;
    upload = v.upload;
    is_there = get_elem?-append us vs v.place v.is_there;
    same_id = v.same_id;
    approved = v.approved;
  }

  -- Only open uploads change.
  Vouches-set :
      (us : List (Upload K)) (i : ℕ) (u u' : Upload K) (id : K.ShortGuid) (s : WriteSummary)
      → get_elem? us i ≡ some u
      → u.is_open ≡ true
      → Vouches us id s
      → Vouches (set us i u') id s
  Vouches-set us i u u' id s at is_open v = record {
    place = v.place;
    upload = v.upload;
    is_there =
        get_elem?-set_ne us i v.place u'
          (λ same. ground (arith, at, same, v.is_there, is_open, v.approved.is_closed))
        ∙ v.is_there;
    same_id = v.same_id;
    approved = v.approved;
  }

  pub Happens-Vouches :
      {w v : World K} (id : K.ShortGuid) (s : WriteSummary)
      → Happens K w v
      → Vouches w.uploads id s
      → Vouches v.uploads id s
  Happens-Vouches {w} id s (file_opened disk f tx now g h e) x =
      rw e (Vouches-append w.uploads (begin_upload K f tx g ∷ []) id s x)
  Happens-Vouches id s (file_refused disk f tx now y h e) x = rw e x
  Happens-Vouches {w} id s (guard_called i u c at is_open e) x =
      rw e (Vouches-set w.uploads i u (call_upload K u c) id s at is_open x)
  Happens-Vouches {w} id s (guard_ended i u y at is_open e) x =
      rw e (Vouches-set w.uploads i u (end_upload K u y) id s at is_open x)
  Happens-Vouches id s (handler_ran i u y b at hears p h e) x = rw e x
  Happens-Vouches id s (command_handled command rest c e) x = rw e x
