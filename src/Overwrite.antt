-- ===== src/Overwrite.antt =====
-- What replacing the working tree would cost (crates/converge-model/src/overwrite.rs): the facts, the
-- risks, the options, and the refusal that is printed.
use convergence.Prelude.{
  is_nil, String, Bool, true, false, not, ◌&&◌, Option, none, some, List, [], ◌∷◌, ◌++◌, any,
  length, format, decimal, take_chars, pad_right, if◌then◌else◌,
}

pub record Facts : Type 0 where
  pub target : String
  pub head : Option String
  pub diverged : Bool
  pub named_by_user : Bool
  pub uncaptured : List String

pub data Risk : Type 0 where
  uncaptured_edits : List String → Risk
  diverged_head : String → Risk

unfoldable pub recoverable : Risk → Bool
recoverable (uncaptured_edits paths) = false
recoverable (diverged_head head) = true

unfoldable pub short : String → String
unfolding take_chars
short id = take_chars 12 id

unfoldable pub describe : Risk → String
unfolding short decimal
describe (uncaptured_edits (path ∷ [])) = format ("1 uncaptured change (" ∷ path ∷ ")" ∷ [])
describe (uncaptured_edits paths) = format (decimal (length paths) ∷ " uncaptured changes" ∷ [])
describe (diverged_head head) = format ("your head " ∷ short head ∷ " would be left behind" ∷ [])

pub data Choice : Type 0 where
  snap_first overwrite cancel : Choice

pub record Opt : Type 0 where
  pub choice : Choice
  pub key : String
  pub label : String
  pub detail : String
  pub recommended : Bool

pub record Plan : Type 0 where
  pub risks : List Risk
  pub options : List Opt

unfoldable pub is_clear : Plan → Bool
is_clear p = is_nil p.risks

unfoldable pub loses_work : Plan → Bool
unfolding recoverable
loses_work p = any (λ r. not (recoverable r)) p.risks

-- The two pushes onto `risks`.
abbrev pub edit_risks : Facts → List Risk
edit_risks facts = if is_nil facts.uncaptured then [] else uncaptured_edits facts.uncaptured ∷ []

abbrev pub head_risks : Facts → List Risk
head_risks facts =
    if facts.diverged && not facts.named_by_user
    then elim facts.head [ none ↦ [] | some head ↦ diverged_head head ∷ [] ]
    else []

-- `1` alone is written without its number where the text says so.
abbrev pub changes : List String → String
changes (path ∷ []) = "change"
changes paths = format (decimal (length paths) ∷ " changes" ∷ [])

abbrev pub uncaptured_changes : List String → String
uncaptured_changes (path ∷ []) = "1 uncaptured change"
uncaptured_changes paths = format (decimal (length paths) ∷ " uncaptured changes" ∷ [])

abbrev pub keep_detail : Facts → String
keep_detail facts =
    if is_nil facts.uncaptured
    then "snap nothing (tree is clean), then take theirs"
    else format
        ("capture my " ∷ changes facts.uncaptured ∷ " as a snap first, then take theirs" ∷ [])

abbrev pub take_detail : Facts → String
take_detail facts =
    if is_nil facts.uncaptured
    then elim facts.head [
      | none ↦ "replace my tree"
      | some head ↦
          format
            ("replace my tree — `converge restore " ∷ short head ∷ "` brings my work back" ∷ [])
    ]
    else format (
        "replace my tree — " ∷ uncaptured_changes facts.uncaptured ∷ " would be lost for good" ∷ [])

unfoldable pub options_for : Facts → List Opt
unfolding short decimal
options_for facts =
    record {
      choice = snap_first;
      key = "k";
      label = "keep mine";
      detail = keep_detail facts;
      recommended = true;
    }
    ∷ record {
      choice = overwrite;
      key = "t";
      label = "take theirs";
      detail = take_detail facts;
      recommended = false;
    }
    ∷ record {
      choice = cancel;
      key = "s";
      label = "stay";
      detail = "the objects are downloaded; my workspace is untouched";
      recommended = false;
    }
    ∷ []

unfoldable pub plan : Facts → Plan
unfolding options_for
plan facts =
    let risks : List Risk = edit_risks facts ++ head_risks facts in
    if is_nil risks
    then record { risks = risks; options = [] }
    else record { risks = risks; options = options_for facts }

-- The lines of `refusal`.
abbrev pub risk_lines : List Risk → List String
risk_lines [] = []
risk_lines (r ∷ risks) = format ("  " ∷ describe r ∷ "\n" ∷ []) ∷ risk_lines risks

abbrev pub flag_of : Choice → String → String
flag_of snap_first command = format (command ∷ " --snap-first" ∷ [])
flag_of overwrite command = format (command ∷ " --force" ∷ [])
flag_of cancel command = "(do nothing)"

abbrev pub option_lines : String → List Opt → List String
option_lines command [] = []
option_lines command (o ∷ options) =
    format (
      "  "
      ∷ pad_right 14 o.label
      ∷ " "
      ∷ flag_of o.choice command
      ∷ (if o.recommended then "   (recommended)" else "")
      ∷ "\n     "
      ∷ o.detail
      ∷ "\n"
      ∷ [])
    ∷ option_lines command options

unfoldable pub refusal : Plan → String → String
unfolding describe pad_right
refusal p command =
    format (risk_lines p.risks ++ ("\nways forward:\n" ∷ option_lines command p.options))
