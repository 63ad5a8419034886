-- ===== src/Sequencing/Safety.antt =====
-- The patterns that the text of a portfolio must not match, and `_output_text`, of
-- src/intelligence/sequencing.py. `is_word` and `is_digit` are `\w` and `\d` of Python's `re`.
use Prim.Native.String.{◌++◌ as ◌<>◌}
use pulse_data_platform.Base.{
  ℕ, String, Bool, true, ◌&&◌, ◌||◌, List, [], ◌∷◌, ◌++◌, leb, ◌==◌, ◌≡◌, refl,
}
use pulse_data_platform.Base.Text.{is_space}
use pulse_data_platform.Base.Regex.{
  Regex, empty, one, no_case, digit, seq, alt, edge, not_after_word, not_before_word, lit,
  lit_no_case, one_of, optional, some_of, at_least, search_in,
}
use pulse_data_platform.Sequencing.Graph.{SequencingError, invalid}
use pulse_data_platform.Sequencing.Items.{
  EvidenceLeverageItem, InvestigationSequenceItem, InvestigationSequencingPortfolio,
}

-- Classes are given in lower case.
abbrev is_letter : ℕ → Bool
is_letter c = leb 97 c && leb c 122

abbrev is_ascii_digit : ℕ → Bool
is_ascii_digit c = leb 48 c && leb c 57

-- `[A-Z0-9.-]` and `[A-Z0-9._%+-]`
abbrev is_host : ℕ → Bool
is_host c = is_letter c || is_ascii_digit c || c == 46 || c == 45

abbrev is_mailbox : ℕ → Bool
is_mailbox c = is_host c || c == 95 || c == 37 || c == 43

-- ` .()-`
abbrev is_phone_sign : ℕ → Bool
is_phone_sign c = c == 32 || c == 46 || c == 40 || c == 41 || c == 45

-- ` _-`
abbrev is_gap : ℕ → Bool
is_gap c = c == 32 || c == 95 || c == 45

abbrev sequence : List Regex → Regex
sequence [] = empty
sequence (r ∷ rs) = seq r (sequence rs)

abbrev between_edges : Regex → Regex
between_edges r = seq edge (seq r edge)

abbrev email : Regex
email = between_edges (
    sequence (
      some_of (no_case is_mailbox)
      ∷ lit "@"
      ∷ some_of (no_case is_host)
      ∷ lit "."
      ∷ at_least 2 (no_case is_letter)
      ∷ []))

abbrev phone : Regex
phone = sequence (
    not_after_word
    ∷ optional (lit "+")
    ∷ digit
    ∷ at_least 7 (alt digit (one is_phone_sign))
    ∷ digit
    ∷ not_before_word
    ∷ [])

-- The edges belong to the first and to the last of the alternatives.
abbrev pii : Regex
pii =
    alt
      (sequence (
        edge
        ∷ one_of ("customer" ∷ "lead" ∷ "order" ∷ "shipment" ∷ "tracking" ∷ [])
        ∷ optional (no_case is_gap)
        ∷ one_of ("id" ∷ "number" ∷ "name" ∷ [])
        ∷ []))
      (alt (one_of ("phone number" ∷ "email address" ∷ "street address" ∷ []))
        (seq (lit_no_case "raw row") edge))

-- `first (?:article )?last`
abbrev with_article : String → String → String → Regex
with_article first article last =
    sequence (lit_no_case first ∷ optional (lit_no_case article) ∷ lit_no_case last ∷ [])

abbrev with_plural : String → Regex
with_plural s = seq (lit_no_case s) (optional (lit_no_case "s"))

abbrev forbidden_action : Regex
forbidden_action = between_edges (
    alt (with_article "pause " "the " "campaign") (
      alt (with_article "change " "the " "budget") (
        alt (with_plural "contact customer") (
          alt (with_plural "issue refund") (
            alt (with_plural "switch provider") (
              alt (with_article "execute " "a " "query") (
                alt (one_of ("trigger etl" ∷ "collect automatically" ∷ [])) (
                  alt (with_article "deploy " "a " "change")
                    (with_article "apply " "the " "recommendation")))))))))

abbrev false_unlock : Regex
false_unlock = between_edges (
    sequence (
      one_of ("will" ∷ "guaranteed to" ∷ [])
      ∷ some_of (one is_space)
      ∷ one_of ("unlock" ∷ "resolve" ∷ "make ready" ∷ "increase readiness" ∷ [])
      ∷ []))

abbrev causal_assertion : Regex
causal_assertion =
    alt
      (between_edges (
        sequence (
          one_of ("is" ∷ "are" ∷ "was" ∷ "were" ∷ [])
          ∷ lit " "
          ∷ optional (lit_no_case "the ")
          ∷ one_of ("cause" ∷ "reason" ∷ [])
          ∷ [])))
      (between_edges (lit_no_case "caused by"))

-- The names of financial results, of which `upside` only follows a promise.
abbrev financial_names : List String
financial_names = "roi" ∷ "roas" ∷ "mer" ∷ "profit" ∷ "revenue" ∷ "contribution" ∷ []

abbrev financial_assertion : Regex
financial_assertion =
    alt
      (sequence (
        edge
        ∷ one_of ("expected" ∷ "projected" ∷ "guaranteed" ∷ [])
        ∷ some_of (one is_space)
        ∷ one_of (financial_names ++ "upside" ∷ [])
        ∷ []))
      (sequence (
        one_of financial_names
        ∷ some_of (one is_space)
        ∷ one_of ("will" ∷ "would" ∷ [])
        ∷ some_of (one is_space)
        ∷ one_of ("increase" ∷ "improve" ∷ "grow" ∷ [])
        ∷ edge
        ∷ []))

-- `"\n".join(values)`
abbrev pub join_lines : List String → String
join_lines [] = ""
join_lines (s ∷ ss) = join_from s ss
  where
    join_from : String → List String → String
    join_from s [] = s
    join_from s (t ∷ ts) = s <> ("\n" <> join_from t ts)

abbrev leverage_texts : List EvidenceLeverageItem → List String
leverage_texts [] = []
leverage_texts (i ∷ items) =
    i.requirement_name ∷ i.description ∷ i.limitation ∷ leverage_texts items

abbrev sequence_texts : List InvestigationSequenceItem → List String
sequence_texts [] = []
sequence_texts (i ∷ items) =
    i.task_title ∷ i.sequencing_reason ∷ i.limitation ∷ sequence_texts items

unfoldable pub output_text : InvestigationSequencingPortfolio → String
output_text p =
    join_lines
      (p.limitation ∷ leverage_texts p.evidence_leverage_items ++ sequence_texts p.sequence_items)

module _ (is_word is_digit : ℕ → Bool) where
  unfoldable pub finds : Regex → String → Bool
  finds = search_in is_word is_digit

  unfoldable pub text_checks : String → List (Bool × SequencingError)
  unfolding finds
  text_checks text =
      (
        finds email text || finds phone text || finds pii text,
        invalid "Sequencing output contains PII-shaped content",
      )
      ∷ (
        finds forbidden_action text,
        invalid "Sequencing output contains business execution language",
      )
      ∷ (finds false_unlock text, invalid "Sequencing output promises a decision unlock")
      ∷ (finds causal_assertion text, invalid "Sequencing output contains a causal assertion")
      ∷ (finds financial_assertion text, invalid "Sequencing output contains a financial claim")
      ∷ []

abbrev ascii_word : ℕ → Bool
ascii_word c = is_ascii_digit c || leb 65 c && leb c 90 || leb 97 c && leb c 122 || c == 95

phone_test : finds ascii_word is_ascii_digit phone "call +48 (12) 345-67-89 now" ≡ true
unfolding finds search_in lit at_least
phone_test = refl

email_test : finds ascii_word is_ascii_digit email "to Ops.Team@example.com." ≡ true
unfolding finds search_in lit at_least
email_test = refl

pii_test : finds ascii_word is_ascii_digit pii "each Order-ID is kept" ≡ true
unfolding finds search_in lit_no_case one_of
pii_test = refl
