-- ===== src/Api/Locale.antt =====
-- locale.ts: the language of what the gateway writes.
use Prim.Native.Char.{code}
use apply_agent.Prelude.{
  String, ◌==◌, Bool, true, false, ◌&&◌, ◌||◌, Option, none, some, Json, if◌then◌else◌, trim,
  to_lower_case, starts_with, nat_beq, is_space, str,
}

pub data SupportedLocale : Type 0 where
  en zh : SupportedLocale

-- `/(^|[,;\s])zh/i`; `at_start` says that the text starts here or after one of these.
zh_from : (at_start : Bool) → String → Bool
zh_from at_start String.[] = false
zh_from at_start (String.◌∷◌ c s) =
    let separates = nat_beq (code c) b',' || nat_beq (code c) b';' || is_space c in
    let later = zh_from separates s in (at_start && starts_with (String.◌∷◌ c s) "zh") || later

-- `localeFromHeader`
unfoldable pub locale_from_header : Option String → SupportedLocale
unfolding zh_from
locale_from_header none = en
locale_from_header (some accept_language) =
    if zh_from true (to_lower_case accept_language) then zh else en

-- `coerceLocale`
unfoldable pub coerce_locale : Option Json → Option SupportedLocale
coerce_locale (some (str value)) =
    let v = to_lower_case (trim value) in
    if v == "zh" || starts_with v "zh-"
    then some zh
    else if v == "en" || starts_with v "en-"
    then some en
    else none
coerce_locale other = none

header_json : Option String → Option Json
header_json none = none
header_json (some value) = some (str value)

or_header : Option SupportedLocale → Option String → SupportedLocale
or_header none accept_language = locale_from_header accept_language
or_header (some explicit) accept_language = explicit

-- `resolveLocale`
unfoldable pub resolve_locale : (relay_locale accept_language : Option String) → SupportedLocale
unfolding header_json or_header
resolve_locale relay_locale accept_language =
    or_header (coerce_locale (header_json relay_locale)) accept_language
