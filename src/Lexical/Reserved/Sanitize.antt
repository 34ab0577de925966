-- ===== src/Lexical/Reserved/Sanitize.antt =====
-- What `sanitize` of src/lexical.hpp leaves.
use egel.Prelude.{false, if◌then◌else◌, List, [], ◌∷◌, ◌≡◌, refl, Bool-cases, inl, inr}
use egel.Prelude.Text.{Text, text_eq}
use egel.Lexical.Token.{
  Tag, Token, Tokens, tag_eq, value, set_tag, map_tokens, filter_tokens, map_all, filter,
}
use egel.Lexical.Token.{token_whitespace, token_comment}
use egel.Lexical.Reserved.{reserve, reserved_table, is_relevant, sanitize}

-- No token is white space or a comment.
unfoldable pub AreRelevant : List Token → Type 0
unfolding tag_eq value
AreRelevant [] = Unit
AreRelevant (t ∷ tt) =
    (tag_eq t.tag token_whitespace ≡ false) × (tag_eq t.tag token_comment ≡ false) × AreRelevant tt

-- The texts of the tokens that are neither white space nor comments, in order.
unfoldable pub code_texts : List Token → List Text
unfolding tag_eq value
code_texts [] = []
code_texts (t ∷ tt) =
    let rest = code_texts tt in
    if tag_eq t.tag token_whitespace
    then rest
    else if tag_eq t.tag token_comment
    then rest
    else t.text ∷ rest

unfoldable pub texts : List Token → List Text
texts [] = []
texts (t ∷ tt) = t.text ∷ texts tt

-- The tags of a table are relevant.
unfoldable pub IsReserving : List (Tag × Text) → Type 0
unfolding tag_eq value
IsReserving [] = Unit
IsReserving ((g, s) ∷ m) =
    ((tag_eq g token_whitespace ≡ false) × (tag_eq g token_comment ≡ false)) × IsReserving m

abbrev IsCode : Token → Type 0
IsCode t = (tag_eq t.tag token_whitespace ≡ false) × (tag_eq t.tag token_comment ≡ false)

reserve-IsCode :
    (m : List (Tag × Text)) (t : Token) → IsReserving m → IsCode t → IsCode (reserve m t)
unfolding reserve IsReserving set_tag
reserve-IsCode [] t h r = r
reserve-IsCode ((g, s) ∷ m) t (k, h) r = elim (Bool-cases (text_eq t.text s)) [
  | inl e ↦ rw e k
  | inr e ↦ rw e (reserve-IsCode m t h r)
]

text-reserve : (m : List (Tag × Text)) (t : Token) → (reserve m t).text ≡ t.text
unfolding reserve set_tag
text-reserve [] t = refl
text-reserve ((g, s) ∷ m) t = elim (Bool-cases (text_eq t.text s)) [
  | inl e ↦ rw e refl
  | inr e ↦ rw e (text-reserve m t)
]

kept :
    (m : List (Tag × Text)) (tt : List Token)
    → IsReserving m
    → AreRelevant (map_tokens (reserve m) (filter_tokens is_relevant tt))
      × (texts (map_tokens (reserve m) (filter_tokens is_relevant tt)) ≡ code_texts tt)
unfolding map_tokens filter_tokens AreRelevant is_relevant texts code_texts
kept m [] h = (tt, refl)
kept m (t ∷ ts) h = elim (Bool-cases (tag_eq t.tag token_whitespace)) [
  | inl e ↦ rw e (kept m ts h)
  | inr e ↦ elim (Bool-cases (tag_eq t.tag token_comment)) [
    | inl c ↦ rw (e, c) (kept m ts h)
    | inr c ↦
        let (r, q) = kept m ts h in
        let (w, d) = reserve-IsCode m t h (e, c) in
        rw (e, c) ((w, d, r), rw (text-reserve m t, q) refl)
  ]
]

reserved_table-IsReserving : IsReserving reserved_table
unfolding IsReserving
reserved_table-IsReserving = (
  (refl, refl),
  (
    (refl, refl),
    (
      (refl, refl),
      (
        (refl, refl),
        (
          (refl, refl),
          (
            (refl, refl),
            (
              (refl, refl),
              (
                (refl, refl),
                (
                  (refl, refl),
                  (
                    (refl, refl),
                    (
                      (refl, refl),
                      (
                        (refl, refl),
                        (
                          (refl, refl),
                          (
                            (refl, refl),
                            (
                              (refl, refl),
                              (
                                (refl, refl),
                                (
                                  (refl, refl),
                                  (
                                    (refl, refl),
                                    (
                                      (refl, refl),
                                      (
                                        (refl, refl),
                                        (
                                          (refl, refl),
                                          ((refl, refl), ((refl, refl), ((refl, refl), tt))),
                                        ),
                                      ),
                                    ),
                                  ),
                                ),
                              ),
                            ),
                          ),
                        ),
                      ),
                    ),
                  ),
                ),
              ),
            ),
          ),
        ),
      ),
    ),
  ),
)

-- A sanitized sequence has no token whose tag is that of white space or of comments; the texts of
-- its tokens are those of all the other tokens, in order; and its cursor is at the start.
pub sanitize-AreRelevant :
    (s : Tokens)
    → AreRelevant (sanitize s).tokens
      × (texts (sanitize s).tokens ≡ code_texts s.tokens)
      × ((sanitize s).index ≡ 0)
unfolding sanitize map_all filter
sanitize-AreRelevant s =
    let (r, q) = kept reserved_table s.tokens reserved_table-IsReserving in (r, q, refl)
