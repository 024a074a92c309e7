-- ===== src/Text/Trim.antt =====
-- `str::trim`.
use venice_e2ee_proxy.Base.{[], ◌∷◌, reverse, if◌then◌else◌}
use venice_e2ee_proxy.Text.{Text, is_whitespace}

unfoldable pub trim_start : Text → Text
unfolding is_whitespace
trim_start [] = []
trim_start (c ∷ cs) = if is_whitespace c then trim_start cs else c ∷ cs

unfoldable pub trim : Text → Text
unfolding trim_start
trim s = reverse (trim_start (reverse (trim_start s)))
