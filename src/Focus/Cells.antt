-- ===== src/Focus/Cells.antt =====
-- packages/focus/src/cloudcause_focus/parsers.py: what the row parsers read of a cell. A cell is a text or is
-- missing, as in a CSV file. What Python's library makes of a text is a parameter, `TextLibrary`.
use cloudcause.Prelude.{
  ℕ, ◌&&◌, String, Bool, Option, none, some, List, [], ◌∷◌, string_eq, nat_eq, ◌==◌, if◌then◌else◌,
}
use cloudcause.Prelude.Dict.{Dict, get, put}

-- json.loads: an object with the texts of its values, a list, or something else
pub data JsonEntry : Type 0 where
  -- a mapping with a key, and its value or ""
  labelled : String → String → JsonEntry
  unlabelled : JsonEntry

pub data Json : Type 0 where
  json_object : Dict String String → Json
  json_list : List JsonEntry → Json
  json_other : Json

pub record TextLibrary (Num : Type 0) : Type 0 where
  pub lower : String → String
  -- the letters and digits of a text, in lower case
  pub key_of : String → String
  pub strip : String → String
  pub is_digits : String → Bool
  pub count : String → ℕ
  -- text[a:b]
  pub part : String → ℕ → ℕ → String
  pub int_of : String → ℕ
  -- date(year, month, day), and the two readings of ISO texts; none is the ValueError
  pub make_date : ℕ → ℕ → ℕ → Option ℕ
  pub iso_datetime_day : String → Option ℕ
  pub iso_date : String → Option ℕ
  pub replace_z : String → String
  pub float_of : String → Option Num
  pub json_loads : String → Option Json

-- row.get(name)
abbrev pub Row : Type 0
Row = Dict String String

-- the first text that is there and not empty
abbrev pub first_text : List (Option String) → Option String
first_text [] = none
first_text (none ∷ rest) = first_text rest
first_text (some text ∷ rest) = if text == "" then first_text rest else some text

-- the cells of the names, or a default
abbrev pub cells : List String → Row → List (Option String)
cells [] row = []
cells (name ∷ rest) row = get name row ∷ cells rest row

unfoldable pub text_of : List String → Row → Option String
unfolding get
text_of names row = first_text (cells names row)

unfoldable pub text_or_default : List String → String → Row → String
unfolding text_of
text_or_default names default row = elim (text_of names row) [ none ↦ default | some text ↦ text ]

module _ {Num : Type 0} (lib : TextLibrary Num) where
  abbrev or_iso_date : String → Option ℕ → Option ℕ
  or_iso_date text none = lib.iso_date (lib.part text 0 10)
  or_iso_date text (some day) = some day

  abbrev date_of_text : String → Option ℕ
  date_of_text text =
      if lib.is_digits text && lib.count text == 8
      then lib.make_date (lib.int_of (lib.part text 0 4)) (lib.int_of (lib.part text 4 6))
          (lib.int_of (lib.part text 6 8))
      else or_iso_date (lib.replace_z text) (lib.iso_datetime_day (lib.replace_z text))

  -- `_as_date`; the text of a missing cell is "None"
  unfoldable pub as_date : Option String → Option ℕ
  as_date none = date_of_text (lib.strip "None")
  as_date (some text) = date_of_text (lib.strip text)

  abbrev label_tags : List JsonEntry → Dict String String → Dict String String
  label_tags [] tags = tags
  label_tags (labelled key value ∷ rest) tags = label_tags rest (put key value tags)
  label_tags (unlabelled ∷ rest) tags = label_tags rest tags

  abbrev tags_of_json : Option Json → Dict String String
  tags_of_json none = []
  tags_of_json (some (json_object tags)) = tags
  tags_of_json (some (json_list entries)) = label_tags entries []
  tags_of_json (some json_other) = []

  -- `_as_tags`
  unfoldable pub as_tags : Option String → Dict String String
  unfolding put
  as_tags none = []
  as_tags (some text) =
      if text == ""
      then []
      else if lib.strip text == ""
      then []
      else tags_of_json (lib.json_loads (lib.strip text))
