-- ===== src/Image/Script.antt =====
-- internal/image/manager.go: the scripts that build a layer, and the summary of a layer of
-- internal/project/project.go. shellQuote is the function of the same text in internal/gitsrv.
use kranq.Base.{◌==◌, not, List, [], ◌∷◌, ◌++◌, if◌then◌else◌, leb, length, take, map}
use kranq.Base.Text.{Bytes, codes, empty}
use kranq.Base.Strings.{join, cut, trim_space}
use kranq.Gitsrv.Quote.{shell_quote}
use kranq.Project.Fields.{EnvVar, Copy}
use kranq.Project.Kranqfile.{Layer}
use kranq.Project.Bind.{Resolved, dir}

abbrev pub quote : Bytes
quote = b'"' ∷ []

abbrev pub newline : Bytes
newline = b'\n' ∷ []

-- strings.ReplaceAll of a double quote by a backslash and a double quote
unfoldable pub escape_double : Bytes → Bytes
escape_double [] = []
escape_double (c ∷ s) =
    let rest = escape_double s in if c == b'"' then b'\\' ∷ b'"' ∷ rest else c ∷ rest

unfoldable pub exports : List EnvVar → Bytes
unfolding escape_double
exports [] = []
exports (e ∷ es) =
    codes "export "
    ++ (e.name
        ++ (codes "=" ++ (quote ++ (escape_double e.value ++ (quote ++ (newline ++ exports es))))))

-- `quoteAll`
unfoldable pub quote_all : List Bytes → Bytes
unfolding shell_quote join
quote_all paths = join (codes " ") (map shell_quote paths)

abbrev pub owner : Bytes
owner = quote ++ (codes "$(id -u):$(id -g)" ++ quote)

unfoldable pub mkdir_script : List Bytes → Bytes
unfolding quote_all
mkdir_script dirs =
    codes "sudo mkdir -p "
    ++ (quote_all dirs ++ (codes " && sudo chown " ++ (owner ++ (codes " " ++ quote_all dirs))))

abbrev pub copy_stage : Bytes
copy_stage = codes "/tmp/kranq-stage"

unfoldable pub reset_script : Bytes
unfolding shell_quote
reset_script =
    codes "rm -rf " ++ (shell_quote copy_stage ++ (codes " && mkdir -p " ++ shell_quote copy_stage))

unfoldable pub install_script : List Bytes → Bytes
unfolding quote_all shell_quote join
install_script roots = join newline (
    codes "set -euo pipefail"
    ∷ (codes "sudo tar -C "
        ++ (shell_quote copy_stage ++ codes " -cf - . | sudo tar -C / --no-overwrite-dir -xf -"))
    ∷ (codes "sudo chown -R " ++ (owner ++ (codes " " ++ quote_all roots)))
    ∷ (codes "rm -rf " ++ shell_quote copy_stage)
    ∷ [])

-- The script of a layer's RUN, with the secrets last.
unfoldable pub run_script : Resolved → Bytes
unfolding exports shell_quote
run_script l =
    codes "set -euo pipefail"
    ++ (newline
        ++ (codes "cd "
            ++ (shell_quote (dir l.layer)
                ++ (newline
                    ++ (exports l.layer.env
                        ++ (exports l.values
                            ++ (exports l.private ++ (l.layer.run ++ newline))))))))

abbrev pub shortened : Bytes → Bytes
shortened s = if leb (length s) 44 then s else take 41 s ++ codes "..."

abbrev pub first_line : Bytes → Bytes
first_line s = (cut b'\n' (trim_space s)).0

abbrev pub all_sources : List Copy → List Bytes
all_sources [] = []
all_sources (c ∷ cs) = c.sources ++ all_sources cs

unfoldable pub summary : Layer → Bytes
unfolding join cut trim_space
summary l =
    if not (empty l.run)
    then codes "RUN " ++ shortened (first_line l.run)
    else codes "COPY " ++ shortened (join (codes " ") (all_sources l.copies))
