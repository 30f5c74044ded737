-- ===== src/Config/Connection.antt =====
-- Connection strings and their text.
use yeet_yoink.Common.{
  ◌≡◌, String, [], ◌∷◌, true, ok, arith, inl, inr, Result-cases, Bool-cases, text_eq,
}
use yeet_yoink.Config.{Urls, IsPrinted, MemcacheConnectionString, new, connection_text, get_urls}

module _ (U : Urls) (printed : IsPrinted U) where
  new-ok :
      (s : String) (c : MemcacheConnectionString)
      → new U s ≡ ok c
      → (u : U.Url) × (U.parse s ≡ ok u)
        × (text_eq.beq (U.scheme u) "memcache" ≡ true)
        × (c.text ≡ U.url_text u)
  unfolding new
  new-ok s c h = elim (Result-cases (U.parse s)) [
    | inr (e, x) ↦ absurd (ground arith)
    | inl (u, x) ↦ elim (Bool-cases (text_eq.beq (U.scheme u) "memcache")) [
      | inr y ↦ absurd (ground arith)
      | inl y ↦ (u, x, y, ground arith)
    ]
  ]

  -- If the text of a URL parses to that URL and is not empty, a connection string that was accepted
  -- is accepted again from its text, unchanged, and it encodes one URL, which is that text and has
  -- the scheme memcache.
  pub new-connection_text :
      (s : String) (c : MemcacheConnectionString)
      → new U s ≡ ok c
      → (new U (connection_text c) ≡ ok c)
        × (get_urls c ≡ connection_text c ∷ [])
        × ((u : U.Url) × (U.parse (connection_text c) ≡ ok u) × (U.scheme u ≡ "memcache"))
  unfolding new get_urls
  new-connection_text s c h =
      let (u, parsed, scheme, text) = new-ok s c h in
      (
        ground (arith, printed.parse-text u, scheme, text),
        ground (arith, printed.text_filled u, text),
        (
          u,
          ground (arith, printed.parse-text u, text),
          (text_eq.beq_iff (U.scheme u) "memcache").0 scheme,
        ),
      )
