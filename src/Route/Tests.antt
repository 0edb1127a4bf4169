-- ===== src/Route/Tests.antt =====
-- Routes on concrete paths.
use web_socket_cpp.Base.{
  ℕ, ByteArray, List, ◌≤◌, ◌≤◌, ◌≢◌, inl, true, false, [], ◌∷◌, some, ◌≡◌, refl, codes, length,
}
use web_socket_cpp.Names.Method.{Method}
use web_socket_cpp.Text.Compare.{compare_bytes, contains}
use web_socket_cpp.Route.Tokens.{Kind, View, starts_with, match_group, sort_group}
use web_socket_cpp.Route.Parser.{parse}
use web_socket_cpp.Route.{Route, create, is_match, answered, fault, method_number, is_any}
use web_socket_cpp.Route.Soundness.{IsRight, is_match-IsRight}
use web_socket_cpp.Route.Matching.{IsMember}
use web_socket_cpp.Route.Groups.{match_group-longest}
use web_socket_cpp.Route.Plain.{text_token, variable_token, is_match_plain, parse_optional_variable}

abbrev user_route : Route
user_route = record {
  tokens =
      text_token (codes "/") false
      ∷ record (text_token [] false) {
        members = codes "users" ∷ codes "user" ∷ [];
        kind = Kind.group;
      }
      ∷ text_token (codes "/") false
      ∷ record (text_token (codes "name") false) { kind = Kind.variable; view = View.alpha }
      ∷ [];
  method = Method.websocket;
  path = codes "/(user|users)/{name:alpha}";
  use_auth = false;
}

create_two_variables :
    create (codes "/(user|users)/{name:alpha}") Method.websocket false ≡ user_route
unfolding create
create_two_variables = refl

match_user_route :
    is_match user_route Method.websocket (codes "/users/john")
    ≡ answered ((codes "name", codes "john") ∷ []) true
unfolding is_match
match_user_route = refl

is_match-IsRight_example :
    IsRight user_route.tokens
      (codes "/users/john")
      (is_match user_route Method.websocket (codes "/users/john"))
    × (is_match user_route Method.websocket (codes "/users/john") ≢ answered [] false
        → method_number Method.websocket ≡ method_number Method.websocket)
unfolding is_any
is_match-IsRight_example =
    is_match-IsRight user_route Method.websocket (codes "/users/john")
      (λ _. refl, (λ _. refl, (λ _. refl, tt)))

match_users :
    match_group (sort_group (codes "user" ∷ codes "users" ∷ [])) (codes "users/1") ≡ some 5
unfolding match_group sort_group
match_users = refl

abbrev user_names : List ByteArray
user_names = codes "user" ∷ codes "users" ∷ []

match_group-longest_example :
    (n : ℕ) × (match_group (sort_group user_names) (codes "users/1") ≡ some n)
    × (length (codes "user") ≤ n)
    × ((str : ByteArray) × IsMember str user_names
        × (starts_with str (codes "users/1") ≡ true)
        × (length str ≡ n))
match_group-longest_example =
    match_group-longest user_names (codes "users/1") (codes "user") (inl refl)
      (unfold starts_with in refl)

is_match_plain_example :
    is_match (create (codes "/chat") Method.get false) Method.get (codes "/chats")
    ≡ answered [] (compare_bytes (codes "/chat") (codes "/chats"))
is_match_plain_example =
    is_match_plain (codes "/chat") (codes "/chats") Method.get false
      (unfold contains in (refl, (refl, (refl, (refl, (refl, tt))))))

parse_optional_variable_example :
    parse (codes "/user/[{action}/]")
    ≡ (text_token (codes "/user/") false ∷ variable_token (codes "action") ∷ [], false)
parse_optional_variable_example =
    parse_optional_variable b'/' (codes "user/") b'a' (codes "ction") (codes "/") []
      (unfold contains in (refl, (refl, (refl, (refl, (refl, (refl, tt)))))))
      (unfold contains in (refl, (refl, (refl, (refl, (refl, (refl, tt)))))))
      (unfold contains in (refl, tt))

-- Two stars in a row: the second is found at once with the length of the text before it.
two_stars : is_match (create (codes "/abc**d") Method.get false) Method.get (codes "/abcX") ≡ fault
unfolding is_match create
two_stars = refl

-- The arguments of a refusal stay in the request.
refused_with_argument :
    is_match user_route Method.websocket (codes "/user/john/")
    ≡ answered ((codes "name", codes "john") ∷ []) false
unfolding is_match
refused_with_argument = refl
