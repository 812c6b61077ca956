-- ===== src/CliRuntime/DnsLabel.antt =====
-- cliruntime/image_build_job_helpers.go: the label that a job and its objects are named by.
pub mod Laws
use code_code_platform_catal.Prelude.{
  ℕ, Bool, ◌||◌, List, [], ◌∷◌, map, if◌then◌else◌, ◌==◌, nat_eq, ltb, length, take,
}
use code_code_platform_catal.Text.{
  Text, codes, dash, is_empty, is_lower, is_digit, to_lower, trim_space, trim, trim_right,
}

unfoldable pub is_hyphen : ℕ → Bool
is_hyphen c = c == dash

unfoldable pub is_label_byte : ℕ → Bool
is_label_byte c = is_lower c || is_digit c || c == dash

-- The body of the loop over the runes.
unfoldable pub label_byte : ℕ → ℕ
label_byte c = if is_label_byte c then c else dash

unfoldable pub shorten : Text → Text
shorten out = if ltb 40 (length out) then trim_right is_hyphen (take 40 out) else out

unfoldable pub dns_label : Text → Text
dns_label value =
    let out = trim is_hyphen (map label_byte (to_lower (trim_space value))) in
    if is_empty out then codes "unknown" else shorten out
