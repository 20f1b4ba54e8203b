-- ===== src/Program/Loaded.antt =====
-- The ways in which main of src/tinyproxy.c loads its routes.
use tinyproxy.Base.{Bool, true, false, not, List, Option, some, if◌then◌else◌, enomem, Result, err}
use tinyproxy.Text.{is_nil}
use tinyproxy.Route.{Route}
use tinyproxy.Conf.File.{load_routes_from_file}
use tinyproxy.Program.CommandLine.{Options}
use tinyproxy.Program.Start.{
  alloc_routes, ProgramCalls, World, at_first, did, inline_routes_from, file_routes, load_routes,
}

abbrev pub with_array : World
with_array = did alloc_routes (record at_first { has_routes = true })

-- The routes come from a file, or there is no memory, which is as a file that cannot be read; or there
-- is an array of inline routes.
pub load_routes-cases :
    (calls : ProgramCalls) (P : Result (List Route) × World → Type 0) (opts : Options)
    → ((o : Option (Result (List Route))) → P (file_routes calls o at_first))
    → ((routes : Result (List Route)) → P (routes, with_array))
    → P (load_routes calls opts at_first)
unfolding load_routes
load_routes-cases calls P opts from_file inline =
    by_inline (is_nil opts.inline_routes) calls.routes_calloc
  where
    by_inline :
        (none_inline memory : Bool)
        → P (
            if none_inline
            then file_routes calls (load_routes_from_file calls.memory calls.file) at_first
            else if not memory
            then (err enomem, at_first)
            else (inline_routes_from calls 0 opts.inline_routes, with_array))
    by_inline true memory = from_file (load_routes_from_file calls.memory calls.file)
    by_inline false true = inline (inline_routes_from calls 0 opts.inline_routes)
    by_inline false false = from_file (some (err enomem))
