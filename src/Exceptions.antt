-- ===== src/Exceptions.antt =====
-- src/core/exception.h and src/core/exception.cpp: an exception and its text.
use packaged_task.Base.{ℕ, ◌≡◌, refl, List, [], ◌++◌, arith}
use packaged_task.Base.Text.{
  codes, newline, int_text, unsigned_text, digits, c_str, c_str_whole, int_text-IsText, IsText,
  IsText-append,
}

-- A `std::string` is the list of its bytes; the line is an `int`, given by its bits.
pub record Exception : Type 0 where
  pub line : ℕ
  pub file : List ℕ
  pub text : List ℕ
  pub message : List ℕ

-- The constructor from a string, which `EV_EXCEPT` calls with the line and the file.
unfoldable pub exception : (str : List ℕ) → (line : ℕ) → (file : List ℕ) → Exception
exception str line file = record { line = line; file = file; text = str; message = [] }

-- The copy constructor leaves out the final message.
unfoldable pub copied : Exception → Exception
copied e = record { line = e.line; file = e.file; text = e.text; message = [] }

unfoldable pub composed : Exception → List ℕ
composed e =
    codes "File: \""
    ++ (e.file
        ++ (codes "\"  Line: "
            ++ (int_text e.line
                ++ (newline ++ (codes "\tMessage: \"" ++ (e.text ++ (codes "\"" ++ newline)))))))

-- `what()`: the exception keeps the text that the pointer leads into.
unfoldable pub what : Exception → List ℕ × Exception
what e = (c_str (composed e), record e { message = composed e })

-- Where the file's name and the text have no null byte, `what()` returns all of its text: the file,
-- the line and the text that the exception was made with, also of a copy.
pub what_lem :
    (str : List ℕ) (line : ℕ) (file : List ℕ)
    → IsText str
    → IsText file
    → ((what (exception str line file)).0 ≡ composed (exception str line file))
      × ((what (copied (exception str line file))).0 ≡ composed (exception str line file))
unfolding what composed exception copied
what_lem str line file clean named =
    let end : List ℕ = codes "\"" ++ newline in
    let quoted : List ℕ = codes "\tMessage: \"" ++ (str ++ end) in
    let numbered : List ℕ = int_text line ++ (newline ++ quoted) in
    let placed : List ℕ = codes "\"  Line: " ++ numbered in
    let quoted_clean : IsText quoted =
      IsText-append (codes "\tMessage: \"") (str ++ end) (omega arith)
        (IsText-append str end clean (omega arith)) in
    let placed_clean : IsText placed = IsText-append (codes "\"  Line: ") numbered (omega arith) (
      IsText-append (int_text line) (newline ++ quoted) (int_text-IsText line)
        (IsText-append newline quoted (omega arith) quoted_clean)) in
    let whole = c_str_whole (composed (exception str line file)) (
      IsText-append (codes "File: \"") (file ++ placed) (omega arith)
        (IsText-append file placed named placed_clean)) in
    (whole, whole)

range_error_shown :
    (what (exception (codes "Range error") 18 (codes "memory_stream.cpp"))).0
    ≡ codes "File: \"memory_stream.cpp\"  Line: 18\n\tMessage: \"Range error\"\n"
unfolding what exception composed c_str int_text unsigned_text digits
range_error_shown = refl
