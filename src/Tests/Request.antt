-- ===== src/Tests/Request.antt =====
-- Requests that are written and parsed.
use openslp.Base.{ℕ, ◌≡◌, refl, true, false, none, List, [], ◌∷◌, length, arith}
use openslp.Wire.Put.{put_uint16, put_uint24, put_l16_string}
use openslp.Wire.Ensures.{Ensures}
use openslp.Wire.Reads.{Never}
use openslp.Message.Types.{funct_srvrqst, funct_attrrqst, funct_srvtyperqst}
use openslp.Message.Put.{put_header}
use openslp.Message.Parse.{parse_buffer}
use openslp.Message.Reads.{HeaderIs}
use openslp.Request.{put_request, put_srv_rqst, put_attr_rqst, put_srv_type_rqst, calc_buffer_size}
use openslp.Request.Size.{length-put_request}
use openslp.Request.RoundTrip.{IsSrvRqst, parse_buffer-put_srv_rqst}
use openslp.Request.Attrs.{IsAttrRqst, parse_buffer-put_attr_rqst}
use openslp.Request.SrvTypes.{IsSrvTypeRqst, parse_buffer-put_srv_type_rqst}
use openslp.Tests.Buffers.{of_bytes, plenty, blank}

abbrev en : List ℕ
en = b'e' ∷ b'n' ∷ []

abbrev scope : List ℕ
scope = b'D' ∷ b'E' ∷ b'F' ∷ []

abbrev ftp : List ℕ
ftp = b'f' ∷ b't' ∷ b'p' ∷ []

abbrev find_ftp : List ℕ
find_ftp = put_request funct_srvrqst true 0 77 en [] (put_srv_rqst ftp scope [] [])

parse_buffer-put_srv_rqst_example :
    Ensures Never
      (λ m b'.
        HeaderIs (of_bytes find_ftp).mem 1 (length find_ftp) 0x2000 0 77 en m.header
        × IsSrvRqst (of_bytes find_ftp).mem [] ftp scope [] [] m.body
        × (b'.mem ≡ (of_bytes find_ftp).mem))
      (parse_buffer plenty none none blank (of_bytes find_ftp))
unfolding put_request put_header put_srv_rqst put_l16_string put_uint16 put_uint24 calc_buffer_size
parse_buffer-put_srv_rqst_example =
    parse_buffer-put_srv_rqst plenty none none blank (of_bytes find_ftp) true 77 en [] ftp scope []
      [] (omega arith) (omega arith) (omega arith) (omega arith) (omega arith) (omega arith)
      (omega arith) (omega arith) (record { size = refl; bytes_eq = λ i h. refl })

abbrev ask_attrs : List ℕ
ask_attrs = put_request funct_attrrqst false 0 78 en [] (put_attr_rqst ftp scope [] [])

parse_buffer-put_attr_rqst_example :
    Ensures Never
      (λ m b'.
        HeaderIs (of_bytes ask_attrs).mem 6 (length ask_attrs) 0 0 78 en m.header
        × IsAttrRqst (of_bytes ask_attrs).mem [] ftp scope [] [] m.body
        × (b'.mem ≡ (of_bytes ask_attrs).mem))
      (parse_buffer plenty none none blank (of_bytes ask_attrs))
unfolding put_request put_header put_attr_rqst put_l16_string put_uint16 put_uint24 calc_buffer_size
parse_buffer-put_attr_rqst_example =
    parse_buffer-put_attr_rqst plenty none none blank (of_bytes ask_attrs) false 78 en [] ftp scope
      [] [] (omega arith) (omega arith) (omega arith) (omega arith) (omega arith) (omega arith)
      (omega arith) (omega arith) (record { size = refl; bytes_eq = λ i h. refl })

abbrev ask_types : List ℕ
ask_types = put_request funct_srvtyperqst false 0 79 en [] (put_srv_type_rqst true [] scope)

parse_buffer-put_srv_type_rqst_example :
    Ensures Never
      (λ m b'.
        HeaderIs (of_bytes ask_types).mem 9 (length ask_types) 0 0 79 en m.header
        × IsSrvTypeRqst (of_bytes ask_types).mem [] true [] scope m.body
        × (b'.mem ≡ (of_bytes ask_types).mem))
      (parse_buffer plenty none none blank (of_bytes ask_types))
unfolding put_request put_header put_srv_type_rqst put_l16_string put_uint16 put_uint24
    calc_buffer_size
parse_buffer-put_srv_type_rqst_example =
    parse_buffer-put_srv_type_rqst plenty none none blank (of_bytes ask_types) false 79 en [] true
      [] scope (omega arith) (omega arith) (omega arith) (omega arith) (omega arith) (omega arith)
      (record { size = refl; bytes_eq = λ i h. refl })

length-put_request_example :
    length (put_request funct_srvrqst true 0 77 en [] (put_srv_rqst ftp scope [] []))
    ≡ calc_buffer_size false funct_srvrqst 2 0 (length (put_srv_rqst ftp scope [] []))
length-put_request_example =
    length-put_request funct_srvrqst true 0 77 en [] (put_srv_rqst ftp scope [] [])
