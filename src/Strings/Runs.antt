-- ===== src/Strings/Runs.antt =====
-- Runs of the model of libraries/support/stringlib.cpp on concrete strings.
use core_cleanup_test.Base.{◌≡◌, refl, [], ◌∷◌, true, codes}
use core_cleanup_test.Base.Result.{ok, fault}
use core_cleanup_test.Strings.{string_cmp, string_parse}
use core_cleanup_test.Strings.Wildcard.{stands_for, string_cmp-stands_for}

string_cmp_run : string_cmp (codes "agent*_?.te*") (codes "agent_node_7.temp") ≡ ok true
unfolding string_cmp
string_cmp_run = refl

string_cmp-stands_for_example :
    string_cmp (codes "a*_?.t*") (codes "ag_n_7.temp")
    ≡ ok (stands_for (codes "a*_?.t*") (codes "ag_n_7.temp"))
string_cmp-stands_for_example = string_cmp-stands_for (codes "a*_?.t*") (codes "ag_n_7.temp")

string_parse_run :
    string_parse (codes " cp  a.txt\tb.txt ") 20
    ≡ ok ((codes "cp") ∷ (codes "a.txt") ∷ (codes "b.txt") ∷ [])
unfolding string_parse
string_parse_run = refl

-- With room for one pointer the closing one is past the array.
string_parse_overrun : string_parse (codes "cp a.txt") 1 ≡ fault
unfolding string_parse
string_parse_overrun = refl
