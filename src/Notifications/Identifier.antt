-- ===== src/Notifications/Identifier.antt =====
-- notifications/core.py, `identifier`.
use dispatcher_for_codex_age.Prelude.{
  String, Bool, not, ◌&&◌, ◌||◌, length, all, contains, leb, ◌==◌, nat_eq, string_eq, [], ◌∷◌,
}
use dispatcher_for_codex_age.Prelude.Text.{codes, is_alnum}

-- `re.fullmatch("[A-Za-z0-9_.:-]{1,160}", value)` and not `.` or `..`
unfoldable pub is_identifier : String → Bool
is_identifier value =
    let cs = codes value in
    leb 1 (length cs)
    && leb (length cs) 160
    && all (λ c. is_alnum c || contains c (b'_' ∷ b'.' ∷ b':' ∷ b'-' ∷ [])) cs
    && not (value == "." || value == "..")
