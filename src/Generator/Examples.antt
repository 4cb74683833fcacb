-- ===== src/Generator/Examples.antt =====
-- Names that are accepted and names that are not, and the theorems at one of each kind.
use nise_and_go.Common.{◌≤◌, ◌≡◌, ◌↔◌, refl, true, false, none, some, length}
use nise_and_go.Common.Text.{codes, all_of, split}
use nise_and_go.Generator.Name.{
  validate_name, validate_module_path, max_name_len, max_module_path_len, lower_letter, lower_digit,
  letter_digit, is_go_keyword, is_device_name, device_name, uppercase, bad_name,
  control_or_non_ascii, dot_element, empty_element,
}
use nise_and_go.Generator.Name.Runs.{is_run, starts_in}
use nise_and_go.Generator.Name.Grammar.{validate_name_iff}
use nise_and_go.Generator.Name.Elements.{path_element, validate_module_path_iff}

accepted_runs : validate_name (codes "my-app2") ≡ none
unfolding validate_name
accepted_runs = refl

device_runs : validate_name (codes "LPT1.tar.gz") ≡ some (device_name (codes "lpt1"))
unfolding validate_name
device_runs = refl

uppercase_runs : validate_name (codes "MyApp") ≡ some (uppercase (codes "myapp"))
unfolding validate_name
uppercase_runs = refl

doubled_runs : validate_name (codes "my--app") ≡ some bad_name
unfolding validate_name
doubled_runs = refl

control_runs : validate_name (codes "my\napp") ≡ some (control_or_non_ascii 2)
unfolding validate_name
control_runs = refl

path_runs : validate_module_path (codes "github.com/you/myapp") ≡ none
unfolding validate_module_path
path_runs = refl

dots_run : validate_module_path (codes "github.com/../app") ≡ some dot_element
unfolding validate_module_path
dots_run = refl

doubled_slash_runs : validate_module_path (codes "github.com//app") ≡ some empty_element
unfolding validate_module_path
doubled_slash_runs = refl

validate_name_iff_example : (validate_name (codes "my-app2") ≡ none) ↔ (
    (length (codes "my-app2") ≤ max_name_len)
    × (starts_in lower_letter (codes "my-app2") ≡ true)
    × (all_of (is_run lower_digit) (split b'-' (codes "my-app2")) ≡ true)
    × (is_go_keyword (codes "my-app2") ≡ false)
    × (is_device_name (codes "my-app2") ≡ false))
validate_name_iff_example = validate_name_iff (codes "my-app2")

validate_module_path_iff_example : (validate_module_path (codes "github.com/you/myapp") ≡ none) ↔ (
    (length (codes "github.com/you/myapp") ≤ max_module_path_len)
    × (starts_in letter_digit (codes "github.com/you/myapp") ≡ true)
    × (all_of path_element (split b'/' (codes "github.com/you/myapp")) ≡ true))
validate_module_path_iff_example = validate_module_path_iff (codes "github.com/you/myapp")
