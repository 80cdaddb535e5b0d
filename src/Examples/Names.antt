-- ===== src/Examples/Names.antt =====
-- Task names: crates/cloacina-workflow/src/namespace.rs.
use cloacina.Common.{◌≡◌, refl, ok, codes}
use cloacina.Namespace.{from_string, to_string, split_colons}
use cloacina.Namespace.RoundTrip.{separable, unbroken, from_string-to_string, to_string-from_string}
use cloacina.Examples.Samples.{load_ns}

from_string-to_string_example : from_string (to_string load_ns) ≡ ok load_ns
unfolding separable unbroken
from_string-to_string_example = from_string-to_string load_ns refl refl refl refl

to_string-from_string_example : to_string load_ns ≡ codes "public::embedded::etl::load"
unfolding from_string split_colons
to_string-from_string_example = to_string-from_string (codes "public::embedded::etl::load") refl
