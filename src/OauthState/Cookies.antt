-- ===== src/OauthState/Cookies.antt =====
-- One cookie among the others of a request.
use systemvitals.Base.{
  ℕ, ◌≡◌, refl, sym, inl, inr, Bool, true, false, ◌||◌, none, some, List, [], ◌∷◌, ◌++◌, arith,
  ◌==◌, any, All, Option-cases,
}
use mathlib.Core.List.{append_assoc}
use systemvitals.Base.Text.{
  Text, codes, truthy, is_space, trim, trim_start, trim_end, index_of, split, join,
}
use systemvitals.Base.Split.{any-append, any-narrow, trim-id, split-lacks, split-append}
use systemvitals.OauthState.{oauth_state_cookie, one_header, read_part, read_parts, read_cookie}

-- What ends a part of a `Cookie` header, or is cut off it.
abbrev pub breaks : ℕ → Bool
breaks c = is_space c || (c == b';')

abbrev pub is_semicolon : ℕ → Bool
is_semicolon c = c == b';'

-- Another cookie: it has a different name, or none.
abbrev pub IsOther : Text → Type 0
IsOther part = (read_part oauth_state_cookie part ≡ none) × (any is_semicolon part ≡ false)

abbrev pub ours : Text → Text
ours value = oauth_state_cookie ++ b'=' ∷ value

read_part-ours :
    (value : Text)
    → any breaks value ≡ false
    → read_part oauth_state_cookie (ours value) ≡ some value
unfolding read_part trim trim_start trim_end
read_part-ours value h = rw (trim-id value (any-narrow _ _ (λ c e. ground arith) value h)) refl

read_part-space : (name part : Text) → read_part name (b' ' ∷ part) ≡ read_part name part
unfolding read_part trim trim_start
read_part-space name part = elim (Option-cases (index_of b'=' part)) [
  | inl e ↦ rw (read_part, e) refl
  | inr (i, e) ↦ rw (read_part, e) refl
]

join-cons :
    (p q : Text) (os after : List Text)
    → join (codes "; ") (p ∷ (os ++ q ∷ after))
      ≡ p ++ b';' ∷ b' ' ∷ join (codes "; ") (os ++ q ∷ after)
join-cons p q [] after = refl
join-cons p q (o ∷ os) after = refl

pub truthy-append : (s t : Text) (c : ℕ) → truthy (s ++ c ∷ t) ≡ true
truthy-append [] t c = refl
truthy-append (d ∷ s) t c = refl

-- What stands before a part: nothing, or what `read_part` drops.
abbrev IsLead : Text → Type 0
IsLead lead =
    ((part : Text)
      → read_part oauth_state_cookie (lead ++ part) ≡ read_part oauth_state_cookie part)
    × (any is_semicolon lead ≡ false)

free-append :
    (s t : Text)
    → any is_semicolon s ≡ false
    → any is_semicolon t ≡ false
    → any is_semicolon (s ++ t) ≡ false
free-append s t hs ht = rw (any-append is_semicolon s t, hs, ht) refl

ours-free : (value : Text) → any breaks value ≡ false → any is_semicolon (ours value) ≡ false
ours-free value h = any-narrow breaks is_semicolon (λ c e. ground arith) value h

read_parts-join :
    (value : Text) (others after : List Text) (lead : Text)
    → any breaks value ≡ false
    → All IsOther others
    → IsLead lead
    → read_parts oauth_state_cookie
        (split b';' (lead ++ join (codes "; ") (others ++ ours value ∷ after)))
      ≡ some value
unfolding read_parts
read_parts-join value [] [] lead clean hs (drops, free) =
    rw
      (
        split-lacks b';' (lead ++ ours value)
            (free-append lead (ours value) free (ours-free value clean)),
        read_parts,
        drops (ours value),
        read_part-ours value clean,
      )
      refl
read_parts-join value [] (a ∷ after) lead clean hs (drops, free) =
    rw
      (
        sym (append_assoc lead (ours value) (b';' ∷ b' ' ∷ join (codes "; ") (a ∷ after))),
        split-append b';' (lead ++ ours value) (b' ' ∷ join (codes "; ") (a ∷ after))
            (free-append lead (ours value) free (ours-free value clean)),
        read_parts,
        drops (ours value),
        read_part-ours value clean,
      )
      refl
read_parts-join value (o ∷ os) after lead clean (h, hs) (drops, free) =
    rw
      (
        join-cons o (ours value) os after,
        sym (append_assoc lead o (b';' ∷ b' ' ∷ join (codes "; ") (os ++ ours value ∷ after))),
        split-append b';' (lead ++ o) (b' ' ∷ join (codes "; ") (os ++ ours value ∷ after))
            (free-append lead o free h.1),
        read_parts,
        drops o,
        h.0,
      )
      (read_parts-join value os after (b' ' ∷ []) clean hs
        (read_part-space oauth_state_cookie, refl))

join-truthy :
    (value : Text) (others after : List Text)
    → truthy (join (codes "; ") (others ++ ours value ∷ after)) ≡ true
join-truthy value [] [] = refl
join-truthy value [] (a ∷ after) = refl
join-truthy value (o ∷ os) after =
    rw (join-cons o (ours value) os after)
      (truthy-append o (b' ' ∷ join (codes "; ") (os ++ ours value ∷ after)) b';')

-- The value of our cookie is read, whatever stands behind it and whichever other cookies before it.
pub read_cookie-ours :
    (value : Text) (others after : List Text)
    → any breaks value ≡ false
    → All IsOther others
    → read_cookie (one_header (join (codes "; ") (others ++ ours value ∷ after))) oauth_state_cookie
      ≡ some value
unfolding read_cookie
read_cookie-ours value others after clean hs =
    rw (join-truthy value others after)
      (read_parts-join value others after [] clean hs ((λ part. refl), refl))
