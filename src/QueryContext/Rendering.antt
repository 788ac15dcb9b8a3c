-- ===== src/QueryContext/Rendering.antt =====
-- The text that a context carries beside its path.
use text.Mathlib.TextLemmas.{
  nil-append, append-nil as text_append-nil, append_assoc as text_append_assoc,
}
use maplib.Prelude.{
  ◌≡◌, refl, ap, sym, ◌∙◌, ℕ, String, List, [], ◌∷◌, ◌++◌, concat, if◌then◌else◌, append_assoc,
  append-nil,
}
use maplib.QueryContext.{
  PathEntry, display, Context, new, is_empty, extension_with, extend_all, from_path,
}

module _ (show_u16 : ℕ → String) where
  -- the entries, joined by dashes
  unfoldable pub render : List PathEntry → String
  render [] = ""
  render (p ∷ []) = display show_u16 p
  render (p ∷ q ∷ path) = concat (display show_u16 p ∷ "-" ∷ render (q ∷ path) ∷ [])

  abbrev pub IsRendered : Context → Type 0
  IsRendered c = c.string_rep ≡ render c.path

  render-snoc :
      (path : List PathEntry) (p : PathEntry)
      → concat (render path ∷ (if is_empty path then "" else "-") ∷ display show_u16 p ∷ [])
        ≡ render (path ++ p ∷ [])
  unfolding render is_empty
  render-snoc [] p = simp (nil-append, text_append-nil)
  render-snoc (q ∷ []) p = simp (text_append-nil)
  render-snoc (q ∷ r ∷ path) p =
      simp (← render-snoc (r ∷ path) p, text_append-nil, text_append_assoc)

  -- An extension keeps the text in step with the path.
  pub extension_with-IsRendered :
      (c : Context) (p : PathEntry) → IsRendered c → IsRendered (extension_with show_u16 c p)
  unfolding extension_with
  extension_with-IsRendered c p h = rw h (render-snoc c.path p)

  extend_all_lem :
      (c : Context) (path : List PathEntry)
      → IsRendered c
      → ((extend_all show_u16 c path).path ≡ c.path ++ path)
        × IsRendered (extend_all show_u16 c path)
  unfolding extend_all
  extend_all_lem c [] h = (sym (append-nil c.path), h)
  extend_all_lem c (p ∷ path) h =
      let (same, kept) =
        extend_all_lem (extension_with show_u16 c p) path (extension_with-IsRendered c p h) in
      (same ∙ extended c p path, kept)
    where
      extended :
          (c : Context) (p : PathEntry) (path : List PathEntry)
          → (extension_with show_u16 c p).path ++ path ≡ c.path ++ p ∷ path
      extended c p path = unfold extension_with in append_assoc c.path (p ∷ []) path

  -- A context that is built from a path has that path, and its text is the entries of the path
  -- joined by dashes.
  from_path_lem :
      (path : List PathEntry)
      → ((from_path show_u16 path).path ≡ path)
        × ((from_path show_u16 path).string_rep ≡ render path)
  unfolding from_path
  from_path_lem path =
      let (same, kept) = extend_all_lem new path (unfold new render in refl) in
      (same ∙ unfold new in refl, kept ∙ ap render (same ∙ unfold new in refl))
