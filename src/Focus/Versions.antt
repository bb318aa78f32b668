-- ===== src/Focus/Versions.antt =====
-- packages/focus/src/cloudcause_focus/versions.py: the guards on schema versions. `none` is the
-- UnsupportedSchemaVersionError.
use cloudcause.Prelude.{
  String, Option, none, some, List, [], ◌∷◌, contains, string_eq, if◌then◌else◌,
}
use cloudcause.Contracts.Common.{Provider, aws, azure, gcp}

abbrev pub supported_focus_versions : List String
supported_focus_versions = "1.4" ∷ []

unfoldable pub require_supported_focus_version : String → Option String
require_supported_focus_version version =
    if contains version supported_focus_versions then some version else none

abbrev pub supported_export_schema_versions : Provider → List String
supported_export_schema_versions aws = "1" ∷ "1.0" ∷ "2.0" ∷ []
supported_export_schema_versions azure = "1" ∷ "1.0" ∷ "2023-11-01" ∷ []
supported_export_schema_versions gcp = "1" ∷ "1.0" ∷ []

unfoldable pub require_supported_export_schema : Provider → String → Option String
require_supported_export_schema provider version =
    if contains version (supported_export_schema_versions provider) then some version else none
