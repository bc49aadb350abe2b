-- ===== src/Policy/Location.antt =====
-- ClassifyExecutionLocation of shared/policy.go, and filepath.Ext as the two sides call it. Go
-- runs through a map in an order that it does not specify: the order of the markers is an
-- argument.
use librawatch.Common.{
  ℕ, Text, codes, equal_fold, to_lower, contains, find, Bool, false, not, ◌&&◌, ◌==◌, if◌then◌else◌,
  Option, none, some, List, [], ◌∷◌,
}

pub record Marker : Type 0 where
  pub location : Text
  pub marker : Text

abbrev pub watched_location_markers : List Marker
watched_location_markers =
    record { location = codes "downloads"; marker = codes "\\downloads\\" }
    ∷ record { location = codes "desktop"; marker = codes "\\desktop\\" }
    ∷ record { location = codes "temp"; marker = codes "\\temp\\" }
    ∷ []

-- A drive letter other than C.
unfoldable pub is_external_drive : Text → Bool
unfolding equal_fold
is_external_drive (a ∷ (b ∷ rest)) = (b == 58) && not (equal_fold (a ∷ b ∷ []) (codes "c:"))
is_external_drive _ = false

abbrev pub location_or_empty : Option Marker → Text
location_or_empty none = []
location_or_empty (some m) = m.location

unfoldable pub classify_execution_location : List Marker → Text → Text
unfolding is_external_drive find
classify_execution_location markers [] = []
classify_execution_location markers (c ∷ path) =
    if is_external_drive (c ∷ path)
    then codes "usb"
    else location_or_empty (find (λ m. contains (to_lower (c ∷ path)) m.marker) markers)

-- filepath.Ext reads from the end: an extension was found, a separator came first, or neither.
pub data Scan : Type 0 where
  found : Text → Scan
  stopped : Scan
  unread : Scan

unfoldable pub scan_step : (ℕ → Bool) → ℕ → Text → Scan → Scan
scan_step is_separator c s (found e) = found e
scan_step is_separator c s stopped = stopped
scan_step is_separator c s unread =
    if is_separator c then stopped else if c == 46 then found (c ∷ s) else unread

unfoldable pub scan : (ℕ → Bool) → Text → Scan
unfolding scan_step
scan is_separator [] = unread
scan is_separator (c ∷ s) = scan_step is_separator c s (scan is_separator s)

abbrev pub trim_dot : Text → Text
trim_dot [] = []
trim_dot (c ∷ s) = if c == 46 then s else c ∷ s

abbrev pub scanned : Scan → Text
scanned (found e) = e
scanned stopped = []
scanned unread = []

-- strings.TrimPrefix(strings.ToLower(filepath.Ext(path)), ".")
unfoldable pub extension : (ℕ → Bool) → Text → Text
unfolding scan to_lower
extension is_separator path = trim_dot (to_lower (scanned (scan is_separator path)))
