-- ===== src/Shared/Identity.antt =====
-- ApplicationIdentity of shared/identity.go.
use librawatch.Common.{
  Text, codes, text_eq, to_lower, equal_fold, Bool, not, ◌&&◌, if◌then◌else◌, [], ◌∷◌, ◌++◌,
}

pub record ApplicationIdentity : Type 0 where
  pub exe_name : Text
  pub company : Text
  pub product_name : Text
  pub original_filename : Text
  pub file_description : Text
  pub sha256 : Text
  pub full_path : Text

abbrev pub new_application_identity : Text → Text → ApplicationIdentity
new_application_identity exe_name full_path = record {
  exe_name = exe_name;
  company = [];
  product_name = [];
  original_filename = [];
  file_description = [];
  sha256 = [];
  full_path = full_path;
}

unfoldable pub given_or : Text → Text → Text
unfolding text_eq
given_or new old = if text_eq new [] then old else new

unfoldable pub with_metadata :
    Text → Text → Text → Text → Text → ApplicationIdentity → ApplicationIdentity
unfolding given_or
with_metadata company product_name original_filename file_description sha256 id = record id {
  company = given_or company id.company;
  product_name = given_or product_name id.product_name;
  original_filename = given_or original_filename id.original_filename;
  file_description = given_or file_description id.file_description;
  sha256 = given_or sha256 id.sha256;
}

abbrev pub is_given : Text → Bool
is_given t = not (text_eq t [])

-- ApplicationIdentity.Key
unfoldable pub application_key : ApplicationIdentity → Text
unfolding text_eq to_lower
application_key id =
    if is_given id.sha256
    then codes "sha256:" ++ id.sha256
    else if is_given id.product_name && is_given id.company
    then to_lower id.product_name ++ 124 ∷ to_lower id.company
    else to_lower id.exe_name

unfoldable pub same_app : ApplicationIdentity → ApplicationIdentity → Bool
unfolding text_eq equal_fold
same_app id other =
    if is_given id.sha256 && is_given other.sha256
    then text_eq id.sha256 other.sha256
    else if is_given id.product_name
        && (is_given id.company && (is_given other.product_name && is_given other.company))
    then equal_fold id.product_name other.product_name && equal_fold id.company other.company
    else is_given id.exe_name && equal_fold id.exe_name other.exe_name
