-- ===== src/Http/Request/Tests.antt =====
-- Runs of the request parser.
use file_web_server.Http.Request.Range.Written.{between, granted, parse_range-granted, written}
use file_web_server.Base.{
  ◌≡◌, ◌≢◌, arith, refl, true, [], ◌∷◌, codes, equal, find, find_byte, starts_with,
}
use file_web_server.Base.Int.{pos, ◌-ℤ◌}
use file_web_server.Http.Request.{parse, method_of, to_lower, skip_blanks, header_line, head}
use file_web_server.Http.Request.Range.Bounds.{InFile, parse_range-InFile, parse_range_defined}
use file_web_server.Http.Request.Range.{parse_range_value, range, undefined, read_digits}

two_headers : parse (codes "HEAD /a HTTP/1.1\r\nHost: x\r\nRange: y\r\n\r\n") ≡ (
  true,
  record {
    method = head;
    raw_method = codes "HEAD";
    path = codes "/a";
    version = codes "HTTP/1.1";
    headers = (codes "host", codes "x") ∷ [];
  },
)
unfolding parse method_of header_line to_lower skip_blanks find find_byte starts_with equal
two_headers = refl

some_range : parse_range_value (codes "bytes=-500") (pos 1000) ≡ range (pos 500) (pos 999)
unfolding parse_range_value read_digits find_byte equal ◌-ℤ◌
some_range = refl

parse_range-InFile_example : InFile (pos 1000) (parse_range_value (codes "bytes=-500") (pos 1000))
parse_range-InFile_example =
    parse_range-InFile (codes "bytes=-500") (pos 1000)
      (parse_range_defined (codes "bytes=-500") (pos 1000) (omega arith))

parse_range_defined_example : parse_range_value (codes "bytes=2-5") (pos 10) ≢ undefined
parse_range_defined_example = parse_range_defined (codes "bytes=2-5") (pos 10) (omega arith)

-- A number of twenty digits overflows, as `val * 10 + digit` does in the source.
twenty_digits : parse_range_value (codes "bytes=99999999999999999999-") (pos 10) ≡ undefined
unfolding parse_range_value read_digits find_byte equal ◌-ℤ◌
twenty_digits = refl

parse_range-granted_example :
    parse_range_value (written (between 2 50)) (pos 10) ≡ granted 10 (between 2 50)
parse_range-granted_example = parse_range-granted (between 2 50) 10 (omega arith)
