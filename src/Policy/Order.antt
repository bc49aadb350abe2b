-- ===== src/Policy/Order.antt =====
-- Where a path is, whatever the order in which Go runs through the location markers.
use librawatch.Common.{
  ℕ, Text, codes, text_eq, to_lower, equal_fold, lower, contains, find, find-mem, find-passes,
  find-none-All, Bool, true, false, ◌≡◌, ◌≢◌, refl, if_rule, Option, none, some, List, [], ◌∷◌,
  ◌++◌, All, All-mem, ◌↔◌, arith,
}
use mathlib.Core.List.{Memᴰ}
use librawatch.Policy.Location.{
  Marker, is_external_drive, location_or_empty, watched_location_markers,
  classify_execution_location,
}

-- A path on a drive: a character and a colon, where the character is neither C nor c.
abbrev pub IsExternal : Text → Type 0
IsExternal (d ∷ (colon ∷ rest)) = (colon ≡ 58) × (d ≢ 67) × (d ≢ 99)
IsExternal _ = ⊥

abbrev pub folders : List Text
folders = codes "downloads" ∷ codes "desktop" ∷ codes "temp" ∷ []

-- A folder of that name is on the path, in any case of letters.
abbrev pub is_below : Text → Text → Bool
is_below name path = contains (to_lower path) (92 ∷ (name ++ 92 ∷ []))

-- The location of a path that is not empty.
pub data Located (path : Text) : Text → Type 0 where
  external : IsExternal path → Located path (codes "usb")
  watched :
      (name : Text)
      → ¬ IsExternal path
      → Memᴰ name folders
      → is_below name path ≡ true
      → Located path name
  elsewhere : ¬ IsExternal path → All (λ name. is_below name path ≡ false) folders → Located path []

-- The check of the drive is what it should be.
is_external_drive-IsExternal : (path : Text) → is_external_drive path ≡ true → IsExternal path
unfolding is_external_drive equal_fold to_lower lower text_eq
is_external_drive-IsExternal [] h = cc
is_external_drive-IsExternal (d ∷ []) h = cc
is_external_drive-IsExternal (d ∷ (colon ∷ rest)) h = ground arith

is_external_drive-false : (path : Text) → is_external_drive path ≡ false → ¬ IsExternal path
unfolding is_external_drive equal_fold to_lower lower text_eq
is_external_drive-false [] h e = e
is_external_drive-false (d ∷ []) h e = e
is_external_drive-false (d ∷ (colon ∷ rest)) h (c, a, b) = ground arith

-- A marker of the table is that of one of the folders.
marker_of :
    (path : Text) (m : Marker)
    → Memᴰ m watched_location_markers
    → contains (to_lower path) m.marker ≡ true
    → Memᴰ m.location folders × (is_below m.location path ≡ true)
marker_of path m k =
    All-mem
      (λ x.
        contains (to_lower path) x.marker ≡ true
        → Memᴰ x.location folders × (is_below x.location path ≡ true))
      watched_location_markers k
      (
        (λ h. (Memᴰ.head refl, h)),
        (
          (λ h. (Memᴰ.tail (Memᴰ.head refl), h)),
          ((λ h. (Memᴰ.tail (Memᴰ.tail (Memᴰ.head refl)), h)), tt),
        ),
      )

located :
    (ms : List Marker) (path : Text) (found : Option Marker)
    → ((m : Marker) → Memᴰ m ms ↔ Memᴰ m watched_location_markers)
    → ¬ IsExternal path
    → find (λ m. contains (to_lower path) m.marker) ms ≡ found
    → Located path (location_or_empty found)
located ms path none same c e =
    let none_of : (m : Marker)
        → Memᴰ m watched_location_markers
        → contains (to_lower path) m.marker ≡ false =
      λ m k. All-mem _ ms ((same m).1 k) (find-none-All _ ms e) in
    elsewhere c (
      none_of _ (Memᴰ.head refl),
      (
        none_of _ (Memᴰ.tail (Memᴰ.head refl)),
        (none_of _ (Memᴰ.tail (Memᴰ.tail (Memᴰ.head refl))), tt),
      ),
    )
located ms path (some m) same c e =
    let (k, h) = marker_of path m ((same m).0 (find-mem _ ms e)) (find-passes _ ms e) in
    watched m.location c k h

-- A path that is not empty is classified as usb when it is on a drive other than C; otherwise as
-- one of downloads, desktop and temp whose folder is on the path, or as none when no such folder
-- is on it: whatever the order in which the table of markers is run through.
pub classify_execution_location-Located :
    (ms : List Marker) (c : ℕ) (path : Text)
    → ((m : Marker) → Memᴰ m ms ↔ Memᴰ m watched_location_markers)
    → Located (c ∷ path) (classify_execution_location ms (c ∷ path))
unfolding classify_execution_location
classify_execution_location-Located ms c path same =
    if_rule (Located (c ∷ path)) (is_external_drive (c ∷ path)) (codes "usb") _
      (λ e. external (is_external_drive-IsExternal (c ∷ path) e))
      (λ e. located ms (c ∷ path) _ same (is_external_drive-false (c ∷ path) e) refl)
