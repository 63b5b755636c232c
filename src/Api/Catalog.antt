-- ===== src/Api/Catalog.antt =====
-- The scalar settings of rsbtd/src/api/settings/catalog.rs, in the order of `scalar_settings!`.
pub mod Strings
pub mod Flags
pub mod Ints
pub mod Keys
pub mod RoundTrip
use rsbtd.Base.{List, [], ◌++◌}
use rsbtd.Api.Scalar.{Scalar}
use rsbtd.Api.Catalog.Strings.{string_fields}
use rsbtd.Api.Catalog.Flags.{flag_fields, more_flag_fields}
use rsbtd.Api.Catalog.Ints.{request_fields, limit_fields, rate_fields, service_fields}

abbrev pub catalog : List Scalar
catalog =
    string_fields ++ flag_fields ++ more_flag_fields ++ request_fields ++ limit_fields
    ++ rate_fields ++ service_fields
