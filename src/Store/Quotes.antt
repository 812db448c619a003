-- ===== src/Store/Quotes.antt =====
-- `sanitizeFTS` of internal/store/store.go: no operator of the query language is left.
use p2pget.Prelude.{
  ℕ, suc, ◌+◌, ◌*◌, List, [], ◌∷◌, ◌++◌, map, ◌==◌, if◌then◌else◌, ◌≡◌, refl, ap, arith, ◌∙◌, Text,
  length, is_empty,
}
use p2pget.Strings.{trim_space, fields, fields_from, end_word, join}
use p2pget.Store.{quote, strip_quotes, quoted, sanitize_fts}

-- How many quotes a text has.
unfoldable pub quotes : Text → ℕ
quotes [] = 0
quotes (c ∷ t) = let n = quotes t in if c == quote then suc n else n

quotes-append : (s t : Text) → quotes (s ++ t) ≡ quotes s + quotes t
unfolding quotes
quotes-append [] t = omega arith
quotes-append (c ∷ s) t = ground (arith, quotes-append s t)

quotes-strip_quotes : (t : Text) → quotes (strip_quotes t) ≡ 0
unfolding quotes strip_quotes
quotes-strip_quotes [] = refl
quotes-strip_quotes (c ∷ t) = ground (arith, quotes-strip_quotes t)

quotes-quoted : (t : Text) → quotes (quoted t) ≡ 2
unfolding quoted quotes
quotes-quoted t = ground (arith, quotes-append (strip_quotes t) (quote ∷ []), quotes-strip_quotes t)

join-cons :
    (sep v v' : Text) (vs : List Text) → join sep (v ∷ v' ∷ vs) ≡ v ++ sep ++ join sep (v' ∷ vs)
unfolding join
join-cons sep v v' vs = refl

join_one : (sep v : Text) → join sep (v ∷ []) ≡ v
unfolding join
join_one sep v = refl

quotes-join : (ws : List Text) → quotes (join (b' ' ∷ []) (map quoted ws)) ≡ 2 * length ws
quotes-join [] = unfold quotes join in refl
quotes-join (w ∷ []) = rw join_one (quotes-quoted w)
quotes-join (w ∷ w' ∷ ws) =
    let rest = join (b' ' ∷ []) (quoted w' ∷ map quoted ws) in
    let later : quotes rest ≡ 2 * length (w' ∷ ws) = quotes-join (w' ∷ ws) in
    let space : Text = b' ' ∷ [] in
    let none_there : quotes space ≡ 0 = unfold quotes in refl in
    ap quotes (join-cons space (quoted w) (quoted w') (map quoted ws))
    ∙ quotes-append (quoted w ++ space) rest
    ∙ omega (arith, quotes-append (quoted w) space, none_there, quotes-quoted w, later)

-- The expression has two quotes for each word of the query: those inside a word are gone.
pub quotes-sanitize_fts : (q : Text) → quotes (sanitize_fts q) ≡ 2 * length (fields (trim_space q))
unfolding sanitize_fts
quotes-sanitize_fts q = go (trim_space q)
  where
    go :
        (t : Text)
        → quotes (if is_empty t then [] else join (b' ' ∷ []) (map quoted (fields t)))
          ≡ 2 * length (fields t)
    go [] = unfold quotes fields fields_from end_word in refl
    go (c ∷ t) = quotes-join (fields (c ∷ t))
