-- ===== src/Commands/Arguments/Written.antt =====
-- The parser of the command line against the meaning of settings.
use arrow_client.Base.{ℕ, ◌≡◌, refl, ap, ◌∙◌, none, some, List, [], ◌∷◌, ◌++◌, All, arith}
use arrow_client.Base.Text.{codes, same_text, starts_with}
use arrow_client.Commands.Parser.{Exit, done, exit, panic, ◌>>=◌, Parser, Outside}
use arrow_client.Commands.Arguments.{
  Valued, ca_certificates, interface, rtsp_service, mjpeg_service, http_service, tcp_service,
  valued, set_value, set_flag, parse_options,
}
use arrow_client.Commands.Arguments.Settings.{
  Named, config_file, conn_state_file, rtsp_paths, mjpeg_paths, log_file, Numbered, log_file_size,
  log_file_rotations, Setting, value, discovery, verbose, diagnostic_mode, log_stderr,
  log_stderr_pretty, file, number, flag_of, file_prefix, number_prefix, written, all_written,
  name_file, meaning, all_meaning, IsDocumented, IsWritable,
}

valued-flag_of : (v : Valued) → valued (flag_of v) ≡ some v
unfolding valued same_text
valued-flag_of ca_certificates = refl
valued-flag_of interface = refl
valued-flag_of rtsp_service = refl
valued-flag_of mjpeg_service = refl
valued-flag_of http_service = refl
valued-flag_of tcp_service = refl

parse_none : (o : Outside) (m : Exit Parser) → m ≡ (m >>= parse_options o [])
unfolding parse_options
parse_none o (done p) = refl
parse_none o (exit n) = refl
parse_none o panic = refl

-- An argument that takes no other is a step of the loop.
parse_flag :
    (o : Outside) (arg : List ℕ) (rest : List (List ℕ)) (p : Parser)
    → valued arg ≡ none
    → parse_options o (arg ∷ rest) p ≡ (set_flag o arg p >>= parse_options o rest)
unfolding parse_options
parse_flag o arg [] p none' = rw (none', parse_options) (parse_none o (set_flag o arg p))
parse_flag o arg (next ∷ rest) p none' = rw (none', parse_options) refl

set_flag-file :
    (o : Outside) (f : Named) (text : List ℕ) (p : Parser)
    → o.capture_text (file_prefix f) (file_prefix f ++ text) ≡ some text
    → set_flag o (file_prefix f ++ text) p ≡ name_file o f text p
unfolding set_flag same_text starts_with
set_flag-file o config_file text p e = rw e refl
set_flag-file o conn_state_file text p e = rw e refl
set_flag-file o rtsp_paths text p e = rw e refl
set_flag-file o mjpeg_paths text p e = rw e refl
set_flag-file o log_file text p e = rw e refl

valued-file : (f : Named) (text : List ℕ) → valued (file_prefix f ++ text) ≡ none
unfolding valued same_text
valued-file config_file text = refl
valued-file conn_state_file text = refl
valued-file rtsp_paths text = refl
valued-file mjpeg_paths text = refl
valued-file log_file text = refl

set_flag-number :
    (o : Outside) (n : Numbered) (digits : List ℕ) (m : ℕ) (p : Parser)
    → o.capture_digits (number_prefix n) (number_prefix n ++ digits) ≡ some digits
    → o.usize_from_str digits ≡ some m
    → set_flag o (number_prefix n ++ digits) p ≡ meaning o (number n digits m) p
unfolding set_flag same_text starts_with
set_flag-number o log_file_size digits m p e v = rw e (rw v refl)
set_flag-number o log_file_rotations digits m p e v = rw e (rw v refl)

valued-number : (n : Numbered) (digits : List ℕ) → valued (number_prefix n ++ digits) ≡ none
unfolding valued same_text
valued-number log_file_size digits = refl
valued-number log_file_rotations digits = refl

parse_value :
    (o : Outside) (v : Valued) (text : List ℕ) (rest : List (List ℕ)) (p : Parser)
    → parse_options o (flag_of v ∷ text ∷ rest) p ≡ (set_value o v text p >>= parse_options o rest)
unfolding parse_options
parse_value o v text rest p = rw (valued-flag_of v, parse_options) refl

set_value-meaning :
    (o : Outside) (v : Valued) (text : List ℕ) (p : Parser)
    → set_value o v text p ≡ meaning o (value v text) p
unfolding set_value
set_value-meaning o ca_certificates text p = refl
set_value-meaning o interface text p = ground arith
set_value-meaning o rtsp_service text p = refl
set_value-meaning o mjpeg_service text p = refl
set_value-meaning o http_service text p = refl
set_value-meaning o tcp_service text p = refl

-- A setting is a step of the loop, and does what it means.
parse_written :
    (o : Outside) (s : Setting) (rest : List (List ℕ)) (p : Parser)
    → IsDocumented o
    → IsWritable o s
    → parse_options o (written s rest) p ≡ (meaning o s p >>= parse_options o rest)
unfolding set_flag valued same_text
parse_written o (value v text) rest p doc w =
    parse_value o v text rest p
    ∙ ap (λ m. m >>= parse_options o rest) (set_value-meaning o v text p)
parse_written o discovery rest p doc w = parse_flag o (codes "-d") rest p refl
parse_written o verbose rest p doc w = parse_flag o (codes "-v") rest p refl
parse_written o diagnostic_mode rest p doc w = parse_flag o (codes "--diagnostic-mode") rest p refl
parse_written o log_stderr rest p doc w = parse_flag o (codes "--log-stderr") rest p refl
parse_written o log_stderr_pretty rest p doc w =
    parse_flag o (codes "--log-stderr-pretty") rest p refl
parse_written o (file f text) rest p doc w =
    parse_flag o (file_prefix f ++ text) rest p (valued-file f text)
    ∙ ap (λ m. m >>= parse_options o rest)
        (set_flag-file o f text p (doc.captures_text (file_prefix f) text w))
parse_written o (number n digits m) rest p doc (some_digits, all_digits, read) =
    parse_flag o (number_prefix n ++ digits) rest p (valued-number n digits)
    ∙ ap (λ m. m >>= parse_options o rest)
        (set_flag-number o n digits m p
          (doc.captures_digits (number_prefix n) digits some_digits all_digits) read)

bind_ext :
    (m : Exit Parser) (f g : Parser → Exit Parser)
    → ((p : Parser) → f p ≡ g p)
    → (m >>= f) ≡ (m >>= g)
bind_ext (done p) f g h = h p
bind_ext (exit n) f g h = refl
bind_ext panic f g h = refl

-- The parser gives a command line made of settings its meaning: the settings take effect one after
-- another in their order, up to the first that ends the process.
pub parse_options-all_written :
    (o : Outside) (settings : List Setting) (p : Parser)
    → IsDocumented o
    → All (IsWritable o) settings
    → parse_options o (all_written settings) p ≡ all_meaning o settings p
unfolding parse_options
parse_options-all_written o [] p doc w = refl
parse_options-all_written o (s ∷ settings) p doc w =
    parse_written o s (all_written settings) p doc w.0
    ∙ bind_ext (meaning o s p) (parse_options o (all_written settings)) (all_meaning o settings)
        (λ p. parse_options-all_written o settings p doc w.1)
