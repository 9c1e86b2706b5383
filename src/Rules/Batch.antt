-- ===== src/Rules/Batch.antt =====
-- batchLinkCoverage of internal/rules/engine.go, and the check that reads it. The keys of a map to bool
-- are a list without repetition; Go visits them in any order, on which a sum does not depend.
use Prim.Native.String.{◌++◌}
use async_trace_doctor.Common.{
  ℕ, suc, ◌+◌, String, Bool, false, not, ◌&&◌, Option, none, some, List, [], ◌∷◌, ◌++◌ as append,
  length, ltb, ◌==◌, if◌then◌else◌,
}
use async_trace_doctor.Common.Int.{ℤ, pos, ltb_ℤ}
use async_trace_doctor.Common.Dict
use async_trace_doctor.Common.Dict.{Dict}
use async_trace_doctor.Model.{
  Span, Link, link_has_valid_context, attr_string, attr_int, is_producer, is_consumer,
}
use async_trace_doctor.Correlation.{batch_limit}
use async_trace_doctor.Config.{Rule, contains}
use async_trace_doctor.Rules.Scope.{applies}

-- m[x] = true
unfoldable pub insert_unique : String → List String → List String
unfolding contains
insert_unique x xs = if contains xs x then xs else append xs (x ∷ [])

-- The producers by context: the last of a context stays.
unfoldable pub producers_from : List Span → Dict Span → Dict Span
unfolding is_producer
producers_from [] m = m
producers_from (s ∷ rest) m =
    producers_from rest
      (if is_producer s then Dict.put (s.trace_id ++ ("/" ++ s.span_id)) s m else m)

-- What the loop over the links keeps.
pub record LinkTally : Type 0 where
  pub valid_links : ℕ
  pub contexts : List String
  pub anonymous_links : Dict ℕ
  pub messages : Dict (List String)

abbrev pub no_links : LinkTally
no_links = record { valid_links = 0; contexts = []; anonymous_links = []; messages = [] }

-- A missing key of a map to numbers, and of a map to sets.
abbrev pub number_of : Option ℕ → ℕ
number_of none = 0
number_of (some n) = n

abbrev pub set_of : Option (List String) → List String
set_of none = []
set_of (some xs) = xs

-- What a valid link with a message id adds, and what one without adds.
unfoldable pub tally_message : String → String → LinkTally → LinkTally
unfolding insert_unique
tally_message key id t = record t {
  valid_links = suc t.valid_links;
  contexts = insert_unique key t.contexts;
  messages = Dict.put key (insert_unique id (set_of (Dict.get key t.messages))) t.messages;
}

unfoldable pub tally_anonymous : String → LinkTally → LinkTally
unfolding insert_unique
tally_anonymous key t = record t {
  valid_links = suc t.valid_links;
  contexts = insert_unique key t.contexts;
  anonymous_links = Dict.put key (number_of (Dict.get key t.anonymous_links) + 1) t.anonymous_links;
}

unfoldable pub tally_link : Link → LinkTally → LinkTally
unfolding link_has_valid_context attr_string
tally_link l t =
    if not (link_has_valid_context l)
    then t
    else if not (attr_string l.attributes "messaging.message.id" == "")
    then tally_message (l.trace_id ++ ("/" ++ l.span_id))
        (attr_string l.attributes "messaging.message.id") t
    else tally_anonymous (l.trace_id ++ ("/" ++ l.span_id)) t

unfoldable pub tally_links : List Link → LinkTally → LinkTally
unfolding tally_link
tally_links [] t = t
tally_links (l ∷ rest) t = tally_links rest (tally_link l t)

unfoldable pub budget_of : Option Span → ℕ
unfolding attr_int
budget_of none = 1
budget_of (some p) = batch_limit (attr_int p.attributes "messaging.batch.message_count")

-- The messages of one context that its links cover.
unfoldable pub covered : Dict Span → LinkTally → String → ℕ
unfolding budget_of
covered producers t key =
    let count = length (set_of (Dict.get key t.messages)) in
    let declared = budget_of (Dict.get key producers) in
    let budget = if ltb declared count then count else declared in
    let n = count + number_of (Dict.get key t.anonymous_links) in if ltb budget n then budget else n

unfoldable pub sum_over : (String → ℕ) → List String → ℕ
sum_over f [] = 0
sum_over f (k ∷ ks) = f k + sum_over f ks

pub record BatchCoverage : Type 0 where
  pub coverage : ℕ
  pub valid_links : ℕ
  pub unique_contexts : ℕ

unfoldable pub batch_link_coverage : Span → List Span → BatchCoverage
unfolding tally_links producers_from covered sum_over
batch_link_coverage consumer spans =
    let t = tally_links consumer.links no_links in
    record {
      coverage = sum_over (covered (producers_from spans []) t) t.contexts;
      valid_links = t.valid_links;
      unique_contexts = length t.contexts;
    }

abbrev pub is_short : Option ℤ → ℕ → Bool
is_short none n = false
is_short (some count) n = not (ltb_ℤ count (pos 2)) && ltb_ℤ (pos n) count

-- The case batch_links_incomplete of run appends a finding for the span.
unfoldable pub is_incomplete_batch : Rule → List Span → Span → Bool
unfolding is_consumer applies batch_link_coverage attr_int
is_incomplete_batch r spans s =
    is_consumer s
    && applies r s
    && is_short (attr_int s.attributes "messaging.batch.message_count")
        (batch_link_coverage s spans).coverage
