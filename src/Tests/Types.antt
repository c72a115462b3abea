-- ===== src/Tests/Types.antt =====
-- Service type requests at a concrete database.
use openslp.Base.{
  ℕ, ◌+◌, ◌*◌, ◌<◌, ◌≤◌, ◌≡◌, refl, true, false, some, List, [], ◌∷◌, length, All, Returns, arith,
}
use openslp.Compare.Chars.{ishex, hex2bin}
use openslp.Compare.Text.{
  compare_string, compare_empty, compare_prepared, prepare, trim, trim_front, trimmed_len,
  strncasecmp, fold_white_space, fold_loop, scan_space, memmove, unescape_in_place,
}
use openslp.Compare.Items.{
  seek_comma, contains_loop, contains_string_list, intersect_loop, intersect_string_list,
}
use openslp.Compare.SrvType.{memchr}
use openslp.Compare.NamingAuth.{compare_naming_auth}
use openslp.Database.{DatabaseEntry}
use openslp.Database.Types.{
  TypeRequest, full, listed, append_type, test_type, type_scan, types_loop, srv_type_rqst_start,
}
use openslp.Database.Listing.{Readable}
use openslp.Database.Lists.{listed_text, Lists, srv_type_rqst_start-Lists}
use openslp.Tests.Database.{settings, printer}

-- Two entries of the type "a", one of "b.x" and one of "c" in another scope.
abbrev types : List DatabaseEntry
types =
    printer
    ∷ (record printer { srvtype = b'b' ∷ b'.' ∷ b'x' ∷ [] })
    ∷ printer
    ∷ (record printer { srvtype = b'c' ∷ []; scopelist = b't' ∷ [] })
    ∷ []

abbrev place : DatabaseEntry → ℕ
place e = 70000

-- All types of the scope "s".
abbrev any_authority : TypeRequest
any_authority = record { namingauthlen = 0xffff; namingauth = []; scopelist = b's' ∷ [] }

-- What the runs unfold.
types_run : Unit {0}
unfolding ishex hex2bin compare_string compare_empty compare_prepared prepare trim trim_front
    trimmed_len strncasecmp fold_white_space fold_loop scan_space memmove unescape_in_place
    seek_comma contains_loop contains_string_list intersect_loop intersect_string_list memchr
    compare_naming_auth append_type test_type type_scan types_loop
types_run = tt

each_once :
    type_scan settings place any_authority 6 [] types
    ≡ listed (b'a' ∷ b',' ∷ b'b' ∷ b'.' ∷ b'x' ∷ [])
unfolding types_run
each_once = refl

no_place : type_scan settings place any_authority 4 [] types ≡ full
unfolding types_run
no_place = refl

of_authority :
    type_scan settings place
      (record any_authority { namingauthlen = 1; namingauth = b'X' ∷ [] })
      9
      []
      types
    ≡ listed (b'b' ∷ b'.' ∷ b'x' ∷ [])
unfolding types_run
of_authority = refl

doubled :
    types_loop settings place any_authority (λ n. true) 3 2 types
    ≡ some record {
      allocated = true;
      srvtypelist = b'a' ∷ b',' ∷ b'b' ∷ b'.' ∷ b'x' ∷ [];
      srvtypelistlen = 8;
      errorcode = 0;
    }
unfolding types_run
doubled = refl

memory : (n : ℕ) → true ≡ true
memory n = refl

readable : All (Readable settings place any_authority) types
unfolding types_run
readable =
    let p : (n : ℕ) × (some 0 ≡ some n) = (0, refl) in
    ((p, omega arith), ((p, omega arith), ((p, omega arith), ((p, omega arith), tt))))

enough : length (listed_text settings place any_authority types) < 2 + 6
unfolding types_run
enough = omega arith

within : 2 * length (listed_text settings place any_authority types) ≤ 2147483647
unfolding types_run
within = omega arith

srv_type_rqst_start-Lists_example :
    Returns
      (Lists settings place any_authority true 2147483647 types)
      (srv_type_rqst_start settings place any_authority (λ n. true) 7 2 types)
srv_type_rqst_start-Lists_example =
    srv_type_rqst_start-Lists settings place any_authority (λ n. true) 6 2 2147483647 types memory
      readable (omega arith) enough (omega arith) within (omega arith)

-- Without a handle there is no result.
without_handle :
    srv_type_rqst_start
      (record settings { opens = false })
      place
      any_authority
      (λ n. true)
      7
      2
      types
    ≡ some record { allocated = false; srvtypelist = []; srvtypelistlen = 2; errorcode = 0 }
unfolding srv_type_rqst_start
without_handle = refl
