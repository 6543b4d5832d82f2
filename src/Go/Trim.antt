-- ===== src/Go/Trim.antt =====
-- strings.TrimSpace: unicode.IsSpace at both ends.
use Prim.Native.Char.{Char, code}
use bunny_api_proxy.Base.{String, ◌==◌, Bool, ◌||◌, ◌&&◌, ◌==ℕ◌, leb, if◌then◌else◌}

abbrev pub is_space : Char → Bool
is_space c =
    let n = code c in
    n ==ℕ 32
    || (leb 9 n && leb n 13)
    || (n ==ℕ 133 || n ==ℕ 160 || n ==ℕ 5760)
    || (leb 8192 n && leb n 8202)
    || (n ==ℕ 8232 || n ==ℕ 8233 || n ==ℕ 8239 || n ==ℕ 8287 || n ==ℕ 12288)

unfoldable pub trim_left : String → String
trim_left String.[] = ""
trim_left (String.◌∷◌ c s) = let rest = trim_left s in if is_space c then rest else String.◌∷◌ c s

-- A space goes if nothing but spaces follows it.
unfoldable pub trim_right : String → String
trim_right String.[] = ""
trim_right (String.◌∷◌ c s) =
    let rest = trim_right s in if is_space c && rest == "" then "" else String.◌∷◌ c rest

unfoldable pub trim_space : String → String
unfolding trim_left trim_right
trim_space s = trim_right (trim_left s)
