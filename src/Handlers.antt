-- ===== src/Handlers.antt =====
-- The example handlers: include/micro_tcp/request_handler.hpp and response_handler.hpp.
use text.Mathlib.Text.{◌==◌ as str_eq}
use micro_tcp.Common.{
  true, false, [], ◌∷◌, ◌<◌, ◌≤◌, some, String, ◌≡◌, refl, if◌then◌else◌, length, ltb, ltb-true,
  ltb-false, ◌+◌, arith, length-append,
}
use micro_tcp.World.{World, lit, raw, cout, print, store}
use micro_tcp.Message.{Message, set_content_buffer}
use micro_tcp.Files.{write_file}

-- The virtual methods of the handler objects that a session holds references to. The program's
-- user overrides them: the sessions are modelled for overrides that keep no state between their calls
-- and throw no exception, as the methods of the library itself.
pub record Handlers : Type 0 where
  pub handle_request : Message → Message → Message
  pub handle_response : Message → World → World

unfoldable pub handle_request : Message → Message → Message
handle_request request response = set_content_buffer request.content_buffer response

unfoldable pub handle_response : Message → World → World
unfolding write_file
handle_response response w =
    if ltb 10000 (length response.content_buffer)
    then (let (written, w') = write_file "test.out" response w in
        if written
        then print
            (cout (
              lit "CLIENT | Received content was larger then 10000. Written to file: test.out"
              ∷ []))
            w'
        else w')
    else print (cout (lit "CLIENT | Received response: " ∷ raw response.content_buffer ∷ [])) w

-- The objects that `main` makes.
abbrev pub example_handlers : Handlers
example_handlers = record { handle_request = handle_request; handle_response = handle_response }

-- A content of more than 10000 bytes goes to the file test.out, if that can be written; one line is
-- printed, and any file of another path is as before.
pub handle_response_large :
    (response : Message) (other : String) (w : World)
    → 10000 < length response.content_buffer
    → w.is_writable "test.out" ≡ true
    → str_eq other "test.out" ≡ false
    → let w' = handle_response response w in
      (w'.files "test.out" ≡ some response.content_buffer)
      × (w'.files other ≡ w.files other)
      × (length w'.output ≡ length w.output + 1)
unfolding handle_response store
handle_response_large response other w h e ne =
    rw (ltb-true _ _ h, e) (refl, rw ne refl, omega (arith, length-append {0}))

-- A content of at most 10000 bytes goes to `std::cout`, and no file changes.
pub handle_response_small :
    (response : Message) (w : World)
    → length response.content_buffer ≤ 10000
    → handle_response response w
      ≡ print (cout (lit "CLIENT | Received response: " ∷ raw response.content_buffer ∷ [])) w
unfolding handle_response
handle_response_small response w h = rw (ltb-false _ _ h)
