-- ===== src/Printer/Ipp.antt =====
-- What apue.3e/printer/printd.c sends to the printer: the IPP header, the HTTP header and the document.

pub mod Sizes
pub mod Options
use unix_system_programming.Prelude.{
  ℕ, ◌+◌, ◌/◌, ◌%◌, ◌^◌, Bool, true, false, List, [], ◌∷◌, ◌++◌, length, ◌==◌, if◌then◌else◌,
}
use unix_system_programming.Clib.{Text, codes, c_string}
use unix_system_programming.Database.Numbers.{decimal}
use unix_system_programming.Printer.Jobs.{Request, Job}

abbrev pub crlf : Text
crlf = 13 ∷ 10 ∷ []

-- PR_TEXT
abbrev pub is_text : Request → Bool
is_text req = Request.flags req % 2 == 1

-- htons and htonl, as the bytes in memory, are the library's.
module _ (htons : ℕ → Text) (htonl : ℕ → Text) where
  -- The bytes that are written behind `cp`; the text's length and its bytes are those before its NUL.
  unfoldable pub add_option : ℕ → Text → Text → Text
  add_option tag optname optval =
      let name = c_string optname in
      let val = c_string optval in
      tag % 2 ^ 8 ∷ htons (length name) ++ name ++ htons (length val) ++ val

  unfoldable pub printer_uri : Text → Text
  printer_uri printer_name = codes "http://" ++ c_string printer_name ++ codes "/ipp"

  unfoldable pub format_of : Request → Text
  format_of req = if is_text req then codes "text/plain" else codes "application/postscript"

  unfoldable pub ipp_header : Text → Job → Text
  ipp_header printer_name jp =
      1 ∷ 1 ∷ htons 2
      ++ htonl (Job.jobid jp)
      ++ 1 ∷ add_option 71 (codes "attributes-charset") (codes "utf-8")
      ++ add_option 72 (codes "attributes-natural-language") (codes "en-us")
      ++ add_option 69 (codes "printer-uri") (printer_uri printer_name)
      ++ add_option 66 (codes "requesting-user-name") (Request.usernm (Job.req jp))
      ++ add_option 66 (codes "job-name") (Request.jobnm (Job.req jp))
      ++ add_option 73 (codes "document-format") (format_of (Job.req jp))
      ++ 3 ∷ []

  -- `n` is the number of the bytes that follow.
  unfoldable pub http_header : Text → ℕ → Text
  http_header printer_name n =
      codes "POST /ipp HTTP/1.1"
      ++ crlf
      ++ codes "Content-Length: "
      ++ decimal n
      ++ crlf
      ++ codes "Content-Type: application/ipp"
      ++ crlf
      ++ codes "Host: "
      ++ c_string printer_name
      ++ codes ":631"
      ++ crlf
      ++ crlf

  -- A document that is plain text is sent behind a backspace.
  unfoldable pub extra : Request → Text
  extra req = if is_text req then 8 ∷ [] else []

  -- All that is written to the printer for a job when no write fails, `file` being the document's bytes.
  unfoldable pub sent : Text → Job → Text → Text
  sent printer_name jp file =
      let ilen = length (ipp_header printer_name jp) in
      http_header printer_name (length file + ilen + (if is_text (Job.req jp) then 1 else 0))
      ++ ipp_header printer_name jp
      ++ extra (Job.req jp)
      ++ file
