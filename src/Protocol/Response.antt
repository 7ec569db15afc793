-- ===== src/Protocol/Response.antt =====
-- server/src/protocol.c, `proto_format_response` and `proto_format_response_multiline`. A result
-- `none` stands for -1; the returned count is the length of the line.
use simple_ftp.Base.{
  ℕ, ◌+◌, ◌/◌, ◌%◌, ◌≤◌, ◌<◌, ◌≡◌, ap, ◌&&◌, ◌||◌, Option, none, some, [], ◌∷◌, ◌++◌, ltb, leb,
  ◌==◌, if◌then◌else◌, length, length-append, Bool-cases, inl, inr, &&-true, leb→le, arith,
}
use simple_ftp.CString.{Bytes, decimal}
use simple_ftp.CString.Decimal.{decimal_three}

-- What `snprintf` is asked to write: `"%d %s\r\n"` or `"%d-%s\r\n"`.
unfoldable pub response_line : ℕ → ℕ → Bytes → Bytes
response_line sep code message = decimal code ++ (sep ∷ (message ++ b'\r' ∷ b'\n' ∷ []))

-- The tests that both functions make.
unfoldable pub checked_line : ℕ → ℕ → ℕ → Bytes → Option Bytes
unfolding response_line
checked_line sep buffer_size code message =
    if buffer_size == 0
    then none
    else if ltb code 100 || ltb 599 code
    then none
    else if leb buffer_size (length (response_line sep code message))
    then none
    else some (response_line sep code message)

-- `proto_format_response`
unfoldable pub format_response : ℕ → ℕ → Bytes → Option Bytes
unfolding checked_line
format_response buffer_size code message = checked_line b' ' buffer_size code message

-- `proto_format_response_multiline`
unfoldable pub format_response_multiline : ℕ → ℕ → Bytes → Option Bytes
unfolding checked_line
format_response_multiline buffer_size code message = checked_line b'-' buffer_size code message

-- A reply line as RFC 959 has it: three digits, a separator, the text and CR LF.
abbrev pub reply_line : ℕ → ℕ → Bytes → Bytes
reply_line sep code message =
    (b'0' + code / 100)
    ∷ (b'0' + code / 10 % 10)
    ∷ (b'0' + code % 10)
    ∷ sep
    ∷ (message ++ b'\r' ∷ b'\n' ∷ [])

response_line-reply_line :
    (sep code : ℕ) (message : Bytes)
    → 100 ≤ code
    → code < 1000
    → response_line sep code message ≡ reply_line sep code message
unfolding response_line
response_line-reply_line sep code message h k =
    ap (λ x. x ++ (sep ∷ (message ++ b'\r' ∷ b'\n' ∷ []))) (decimal_three code h k)

checked_line_lem :
    (sep size code : ℕ) (message : Bytes)
    → checked_line sep size code message ≡ (
        if leb 100 code && leb code 599 && ltb (length message + 6) size
        then some (reply_line sep code message)
        else none)
unfolding checked_line
checked_line_lem sep size code message = elim (Bool-cases (leb 100 code && leb code 599)) [
  | inl valid ↦
      let (low, high) = &&-true (leb 100 code) (leb code 599) valid in
      rw
        (response_line-reply_line sep code message (leb→le _ _ low)
          (ground (arith, leb→le code 599 high)))
        (ground (arith, length-append {0} message (b'\r' ∷ b'\n' ∷ [])))
  | inr invalid ↦ ground arith
]

-- Both formatters write a whole reply line, three digits, the separator (a space, or a dash for a
-- line that more lines follow), the text and CR LF, exactly if the code is 100 to 599 and the line
-- and its terminator fit into the buffer; otherwise they fail and nothing is sent cut short.
pub format_response_lem :
    (size code : ℕ) (message : Bytes)
    → (format_response size code message ≡ (
        if leb 100 code && leb code 599 && ltb (length message + 6) size
        then some (reply_line b' ' code message)
        else none))
      × (format_response_multiline size code message ≡ (
          if leb 100 code && leb code 599 && ltb (length message + 6) size
          then some (reply_line b'-' code message)
          else none))
unfolding format_response format_response_multiline
format_response_lem size code message =
    (checked_line_lem b' ' size code message, checked_line_lem b'-' size code message)
