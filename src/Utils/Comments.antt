-- ===== src/Utils/Comments.antt =====
-- utils.go: `skipLeadingComments` and `canCacheQuery`. A nil slice and an empty one are one list.
pub mod Skips
pub mod Relation
use chproxy.Base.{
  Bool, List, Option, Text, [], any, bytes, false, has_prefix, if◌then◌else◌, leb, length, ltb, map,
  none, some, suc, take, zero, ℕ, ◌&&◌, ◌-◌, ◌==◌, ◌||◌, ◌∷◌,
}

-- `q[n+1:]` for the first place n of a byte, `none` where there is none.
after_byte : ℕ → Text → Option Text
after_byte b [] = none
after_byte b (c ∷ q) = if c == b then some q else after_byte b q

abbrev pub is_space : ℕ → Bool
is_space c = (leb 9 c && leb c 13) || c == b' '

-- The rest behind `*/`: the inner loop, which looks for the next `*` until `/` follows it.
close_comment : Text → Option Text
close_comment [] = none
close_comment (c ∷ []) = none
close_comment (c ∷ d ∷ q) =
    let rest = close_comment (d ∷ q) in if c == b'*' && d == b'/' then some q else rest

-- One round of the loop: `done` with what is returned, or `again` with the rest.
pub data Round : Type 0 where
  done again : Text → Round

abbrev pub continue_with : Option Text → Round
continue_with none = done []
continue_with (some q) = again q

pub skip_round : Text → Round
unfolding after_byte close_comment
skip_round [] = done []
skip_round (c ∷ []) = if is_space c then again [] else done (c ∷ [])
skip_round (c ∷ d ∷ q) =
    if is_space c
    then again (d ∷ q)
    else if c == b'-'
    then (if d == b'-' then continue_with (after_byte b'\n' (c ∷ d ∷ q)) else done (c ∷ d ∷ q))
    else if c == b'/'
    then (if d == b'*' then continue_with (close_comment (d ∷ q)) else done (c ∷ d ∷ q))
    else done (c ∷ d ∷ q)

-- Each round drops a byte, so as many rounds as the query has bytes are enough.
pub skip_rounds : ℕ → Text → Text
unfolding skip_round
skip_rounds zero q = q
skip_rounds (suc k) q = elim (skip_round q) [ done r ↦ r | again r ↦ skip_rounds k r ]

pub skip_leading_comments : Text → Text
unfolding skip_rounds
skip_leading_comments q = skip_rounds (length q) q

-- `bytes.ToUpper` of an ASCII byte.
pub to_upper : ℕ → ℕ
to_upper c = if leb b'a' c && leb c b'z' then c - 32 else c

abbrev pub cachable_statements : List Text
cachable_statements = bytes "SELECT" ∷ bytes "WITH" ∷ []

pub starts_statement : Text → Text → Bool
unfolding to_upper has_prefix
starts_statement q statement =
    if ltb (length q) (length statement)
    then false
    else has_prefix (map to_upper (take (length statement) q)) statement

unfoldable pub can_cache_query : Text → Bool
unfolding skip_leading_comments starts_statement
can_cache_query q = any (starts_statement (skip_leading_comments q)) cachable_statements
