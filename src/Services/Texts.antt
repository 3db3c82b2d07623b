-- ===== src/Services/Texts.antt =====
-- The Persian texts of app/services and app/main.py, by what they say.
use rubica_bot.Prelude.{String}

-- anti_link.py: the report of a ban
abbrev pub link_report : String
link_report =
    "\u{6a9}\u{627}\u{631}\u{628}\u{631} \u{628}\u{647} \u{62f}\u{644}\u{6cc}\u{644} \u{627}\u{631}\u{633}\u{627}\u{644} \u{644}\u{6cc}\u{646}\u{6a9} \u{628}\u{646} \u{634}\u{62f} \u{648} \u{67e}\u{6cc}\u{627}\u{645} \u{62d}\u{630}\u{641} \u{634}\u{62f}."

-- panel.py: the title of the panel
abbrev pub panel_title : String
panel_title = "\u{67e}\u{646}\u{644} \u{645}\u{62f}\u{6cc}\u{631}\u{6cc}\u{62a}"

-- the setting Anti Link was updated
abbrev pub anti_link_updated : String
anti_link_updated =
    "\u{62a}\u{646}\u{638}\u{6cc}\u{645} Anti Link \u{628}\u{647}\u{200c}\u{631}\u{648}\u{632}\u{631}\u{633}\u{627}\u{646}\u{6cc} \u{634}\u{62f}."

-- the setting Anti Flood was updated
abbrev pub anti_flood_updated : String
anti_flood_updated =
    "\u{62a}\u{646}\u{638}\u{6cc}\u{645} Anti Flood \u{628}\u{647}\u{200c}\u{631}\u{648}\u{632}\u{631}\u{633}\u{627}\u{646}\u{6cc} \u{634}\u{62f}."

-- the list of filters is empty
abbrev pub panel_no_filters : String
panel_no_filters =
    "\u{644}\u{6cc}\u{633}\u{62a} \u{641}\u{6cc}\u{644}\u{62a}\u{631} \u{62e}\u{627}\u{644}\u{6cc} \u{627}\u{633}\u{62a}. \u{628}\u{627} /filter add <word> \u{627}\u{636}\u{627}\u{641}\u{647} \u{6a9}\u{646}\u{6cc}\u{62f}."

-- the filters
abbrev pub panel_filters : String
panel_filters = "\u{641}\u{6cc}\u{644}\u{62a}\u{631}\u{647}\u{627}:\n"

-- use /del <n>
abbrev pub panel_delete : String
panel_delete =
    "\u{628}\u{631}\u{627}\u{6cc} \u{62d}\u{630}\u{641} \u{627}\u{646}\u{628}\u{648}\u{647} \u{627}\u{632} /del <n> \u{627}\u{633}\u{62a}\u{641}\u{627}\u{62f}\u{647} \u{6a9}\u{646}\u{6cc}\u{62f}."

-- commands.py: the command is for admins only
abbrev pub admins_only : String
admins_only =
    "\u{627}\u{6cc}\u{646} \u{62f}\u{633}\u{62a}\u{648}\u{631} \u{641}\u{642}\u{637} \u{628}\u{631}\u{627}\u{6cc} \u{627}\u{62f}\u{645}\u{6cc}\u{646}\u{200c}\u{647}\u{627}\u{633}\u{62a}."

-- handlers.py: help
abbrev pub help_title : String
help_title = "\u{631}\u{627}\u{647}\u{646}\u{645}\u{627}:"

-- heads
abbrev pub heads : String
heads = "\u{634}\u{6cc}\u{631}"

-- tails
abbrev pub tails : String
tails = "\u{62e}\u{637}"

-- the jokes
abbrev pub joke_computer : String
joke_computer =
    "\u{631}\u{628}\u{627}\u{62a}: \u{686}\u{631}\u{627} \u{6a9}\u{627}\u{645}\u{67e}\u{6cc}\u{648}\u{62a}\u{631} \u{633}\u{631}\u{62f}\u{634} \u{628}\u{648}\u{62f}\u{61f} \u{686}\u{648}\u{646} \u{647}\u{645}\u{6cc}\u{634}\u{647} \u{67e}\u{646}\u{62c}\u{631}\u{647}\u{200c}\u{647}\u{627} \u{628}\u{627}\u{632} \u{628}\u{648}\u{62f}."

abbrev pub joke_code : String
joke_code =
    "\u{628}\u{631}\u{646}\u{627}\u{645}\u{647}\u{200c}\u{646}\u{648}\u{6cc}\u{633}: \u{642}\u{647}\u{648}\u{647} \u{628}\u{62f}\u{648}\u{646} \u{6a9}\u{62f}\u{61f} \u{647}\u{631}\u{6af}\u{632}!"

abbrev pub joke_bug : String
joke_bug =
    "\u{648}\u{642}\u{62a}\u{6cc} \u{62f}\u{6cc}\u{628}\u{627}\u{6af} \u{645}\u{6cc}\u{200c}\u{6a9}\u{646}\u{6cc}، \u{628}\u{627}\u{6af} \u{647}\u{645} \u{632}\u{645}\u{627}\u{646} \u{6cc}\u{627}\u{62f} \u{645}\u{6cc}\u{200c}\u{6af}\u{6cc}\u{631}\u{647}!"

-- a die
abbrev pub dice : String
dice = "🎲 "

-- statistics are not available
abbrev pub no_stats : String
no_stats =
    "\u{622}\u{645}\u{627}\u{631} \u{62f}\u{631} \u{62f}\u{633}\u{62a}\u{631}\u{633} \u{646}\u{6cc}\u{633}\u{62a}."

-- no text was sent
abbrev pub echo_nothing : String
echo_nothing =
    "\u{645}\u{62a}\u{646} \u{627}\u{631}\u{633}\u{627}\u{644} \u{646}\u{634}\u{62f}\u{647} \u{627}\u{633}\u{62a}."

-- usage
abbrev pub calc_usage : String
calc_usage = "\u{627}\u{633}\u{62a}\u{641}\u{627}\u{62f}\u{647}: /calc 2+2"

-- error
abbrev pub calc_error : String
calc_error = "\u{62e}\u{637}\u{627}: "

-- usage
abbrev pub filter_usage : String
filter_usage = "\u{627}\u{633}\u{62a}\u{641}\u{627}\u{62f}\u{647}: /filter add|del|list <word>"

-- there are no filters
abbrev pub filter_empty : String
filter_empty =
    "\u{641}\u{6cc}\u{644}\u{62a}\u{631} \u{62e}\u{627}\u{644}\u{6cc} \u{627}\u{633}\u{62a}."

-- enter the word
abbrev pub filter_word : String
filter_word =
    "\u{6a9}\u{644}\u{645}\u{647} \u{631}\u{627} \u{648}\u{627}\u{631}\u{62f} \u{6a9}\u{646}\u{6cc}\u{62f}."

-- was added to the black list
abbrev pub filter_added : String
filter_added =
    " \u{628}\u{647} \u{644}\u{6cc}\u{633}\u{62a} \u{633}\u{6cc}\u{627}\u{647} \u{627}\u{636}\u{627}\u{641}\u{647} \u{634}\u{62f}."

-- was removed
abbrev pub filter_removed : String
filter_removed = " \u{62d}\u{630}\u{641} \u{634}\u{62f}."

-- the number is invalid
abbrev pub delete_invalid : String
delete_invalid =
    "\u{639}\u{62f}\u{62f} \u{646}\u{627}\u{645}\u{639}\u{62a}\u{628}\u{631} \u{627}\u{633}\u{62a}. \u{645}\u{62b}\u{627}\u{644}: /del 100"

-- no message was chosen
abbrev pub delete_none : String
delete_none =
    "\u{647}\u{6cc}\u{686} \u{67e}\u{6cc}\u{627}\u{645}\u{6cc} \u{628}\u{631}\u{627}\u{6cc} \u{62d}\u{630}\u{641} \u{627}\u{646}\u{62a}\u{62e}\u{627}\u{628} \u{646}\u{634}\u{62f}."

-- no message was found
abbrev pub delete_empty : String
delete_empty =
    "\u{67e}\u{6cc}\u{627}\u{645}\u{6cc} \u{628}\u{631}\u{627}\u{6cc} \u{62d}\u{630}\u{641} \u{67e}\u{6cc}\u{62f}\u{627} \u{646}\u{634}\u{62f}."

-- deleted
abbrev pub deleted_label : String
deleted_label = "\u{62d}\u{630}\u{641} \u{634}\u{62f}: "

-- failed
abbrev pub failed_label : String
failed_label = " | \u{646}\u{627}\u{645}\u{648}\u{641}\u{642}: "

-- The descriptions of the commands in app/main.py.
abbrev pub help_description : String
help_description = "\u{646}\u{645}\u{627}\u{6cc}\u{634} \u{631}\u{627}\u{647}\u{646}\u{645}\u{627}"

abbrev pub setcmd_description : String
setcmd_description = "\u{62b}\u{628}\u{62a} \u{62f}\u{633}\u{62a}\u{648}\u{631}\u{627}\u{62a}"

abbrev pub ping_description : String
ping_description = "\u{62a}\u{633}\u{62a} \u{633}\u{631}\u{639}\u{62a}"

abbrev pub uptime_description : String
uptime_description =
    "\u{646}\u{645}\u{627}\u{6cc}\u{634} \u{645}\u{62f}\u{62a} \u{632}\u{645}\u{627}\u{646} \u{627}\u{62c}\u{631}\u{627}"

abbrev pub stats_description : String
stats_description = "\u{622}\u{645}\u{627}\u{631} \u{67e}\u{631}\u{62f}\u{627}\u{632}\u{634}"

abbrev pub echo_description : String
echo_description = "\u{62a}\u{6a9}\u{631}\u{627}\u{631} \u{645}\u{62a}\u{646}"

abbrev pub id_description : String
id_description =
    "\u{646}\u{645}\u{627}\u{6cc}\u{634} \u{634}\u{646}\u{627}\u{633}\u{647}\u{200c}\u{647}\u{627}"

abbrev pub time_description : String
time_description = "\u{632}\u{645}\u{627}\u{646} \u{633}\u{631}\u{648}\u{631}"

abbrev pub calc_description : String
calc_description = "\u{645}\u{62d}\u{627}\u{633}\u{628}\u{647} \u{633}\u{627}\u{62f}\u{647}"

abbrev pub coin_description : String
coin_description = "\u{634}\u{6cc}\u{631} \u{6cc}\u{627} \u{62e}\u{637}"

abbrev pub roll_description : String
roll_description = "\u{62a}\u{627}\u{633}"

abbrev pub joke_description : String
joke_description = "\u{62c}\u{648}\u{6a9} \u{6a9}\u{648}\u{62a}\u{627}\u{647}"

abbrev pub models_description : String
models_description = "\u{645}\u{62f}\u{644} \u{647}\u{627}"

abbrev pub about_description : String
about_description = "\u{646}\u{633}\u{62e}\u{647} \u{628}\u{627}\u{62a}"

abbrev pub settings_description : String
settings_description =
    "\u{62a}\u{646}\u{638}\u{6cc}\u{645}\u{627}\u{62a} \u{6af}\u{631}\u{648}\u{647}"

abbrev pub admins_description : String
admins_description =
    "\u{62a}\u{639}\u{62f}\u{627}\u{62f} \u{627}\u{62f}\u{645}\u{6cc}\u{646}\u{200c}\u{647}\u{627}"

abbrev pub antilink_description : String
antilink_description =
    "\u{62a}\u{646}\u{638}\u{6cc}\u{645} \u{636}\u{62f} \u{644}\u{6cc}\u{646}\u{6a9}"

abbrev pub filter_description : String
filter_description =
    "\u{645}\u{62f}\u{6cc}\u{631}\u{6cc}\u{62a} \u{641}\u{6cc}\u{644}\u{62a}\u{631}"

abbrev pub del_description : String
del_description = "\u{62d}\u{630}\u{641} \u{627}\u{646}\u{628}\u{648}\u{647}"

abbrev pub ban_description : String
ban_description = "\u{628}\u{646} \u{6a9}\u{627}\u{631}\u{628}\u{631}"

abbrev pub unban_description : String
unban_description = "\u{631}\u{641}\u{639} \u{628}\u{646}"
