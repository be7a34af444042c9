-- ===== src/Tests/Json.antt =====
-- Payloads of the compositor, read by the JSON scanner.
use waylaunch.Prelude.{inr, arith, ◌≡◌, refl, some, [], ◌∷◌, ◌++◌, true}
use waylaunch.Prelude.Int.{pos, negsuc}
use waylaunch.Prelude.Text.{Text, codes, text_eq, is_space, is_xdigit, to_lower}
use waylaunch.Prelude.Decimal.{read_int, signed, unsigned, skip_spaces, read_digits, is_digit}
use waylaunch.Dropdown.Json.{
  array, objects, members, member_at, parse_number, skip_value, skip_at, skip_nested, depth_after,
  skip_literal, parse_bool, expect,
}
use waylaunch.Dropdown.JsonPayload.{
  no_client, parse_hypr_clients, client_member, parse_int, parse_int_pair, parse_workspace,
  workspace_member,
}
use waylaunch.Dropdown.Surrogates.{escape_point, decode_utf8, escaped-decode_utf8}
use waylaunch.Dropdown.JsonRoundTrip.{encode, parse_string-encode}
use waylaunch.Dropdown.JsonString.{
  parse_string, string_from, escaped, unicode, code_point, paired, low_surrogate, low_of,
  append_utf8, parse_hex4, hex_digit, consume_literal, literal_at, consume, at_front, skip_ws,
  is_ws,
}

abbrev payload : Text
payload =
    codes
      "[{\"address\": \"0x5a\", \"class\":\"kitty\",\"title\":\"a {\\u00e9\\n\",\"x\":[1,{\"y\":\"]\"}], \"pid\": 42, \"at\":[3, -4],\"mapped\": true}, {\"pid\":7}]"

two_clients :
    parse_hypr_clients read_int (λ n. n) payload
    ≡ record no_client {
      address = codes "0x5a";
      klass = codes "kitty";
      title = codes "a {" ++ (195 ∷ 169 ∷ 10 ∷ []);
      pid = pos 42;
      at_x = pos 3;
      at_y = negsuc 3;
      mapped = true;
    }
      ∷ record no_client { pid = pos 7 }
      ∷ []
unfolding parse_hypr_clients client_member parse_int parse_int_pair parse_workspace workspace_member
    array objects members member_at parse_number skip_value skip_at skip_nested depth_after
    skip_literal parse_bool expect parse_string string_from escaped unicode code_point paired
    low_surrogate low_of append_utf8 parse_hex4 hex_digit consume_literal literal_at consume
    at_front skip_ws is_ws read_int signed unsigned skip_spaces is_space read_digits is_digit
    is_xdigit to_lower text_eq
two_clients = refl

parse_string-encode_example :
    parse_string (34 ∷ (encode (codes "a\"b") ++ (34 ∷ codes ", 1")))
    ≡ some (codes "a\"b", codes ", 1")
parse_string-encode_example = parse_string-encode (codes "a\"b") (codes ", 1")

escaped-decode_utf8_example :
    (bytes : Text) × (escaped (escape_point 128512 ++ codes "!") ≡ some (bytes, codes "!"))
    × (decode_utf8 bytes ≡ some 128512)
escaped-decode_utf8_example =
    escaped-decode_utf8 128512 (codes "!") (inr (omega arith, omega arith))
