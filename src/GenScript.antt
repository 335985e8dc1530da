-- ===== src/GenScript.antt =====
-- src/service/genscript/genscript.go: the installation script of an external workload. The two
-- variables of the package are the state.
pub mod Lines
use kvm_service.Prelude.{ℕ, String, List, [], ◌∷◌, ◌<>◌}
use kvm_service.Go.Strconv.{format_uint}

pub record GenScriptParams : Type 0 where
  pub port : ℕ
  pub ip_address : String

pub record GenScript : Type 0 where
  pub p : GenScriptParams
  pub script_data : String

unfoldable pub init_gen_script : ℕ → String → GenScript → GenScript
init_gen_script port ip_address g = record g { p = record { port = port; ip_address = ip_address } }

unfoldable pub add_content : String → GenScript → GenScript
add_content content g = record g { script_data = g.script_data <> (content <> "\n") }

-- The calls of addContent, in order.
unfoldable pub add_contents : List String → GenScript → GenScript
unfolding add_content
add_contents [] g = g
add_contents (content ∷ contents) g = add_contents contents (add_content content g)

-- The contents that the script is made of.
unfoldable pub script_contents : GenScriptParams → String → List String
script_contents p identity =
    "#!/bin/bash"
    ∷ "set -e"
    ∷ "set -x"
    ∷ "shopt -s extglob"
    ∷ ""
    ∷ ("CLUSTER_PORT=" <> format_uint p.port)
    ∷ ("CLUSTER_IP=" <> p.ip_address)
    ∷ ""
    ∷ "if [[ $(which docker) && $(docker --version) ]]; then"
    ∷ "    echo \"Docker is installed!!!\""
    ∷ "else"
    ∷ "  echo \"Failed: Docker is not installed!!!\""
    ∷ "  exit -1"
    ∷ "fi"
    ∷ ""
    ∷ ("WORKLOAD_IDENTITY=" <> identity)
    ∷ ""
    ∷ "DOCKER_OPTS=\" -d -p 32767:32767 --log-driver syslog --restart always\""
    ∷ "DOCKER_OPTS+=\" --privileged --add-host kvms.kubearmor.io:$CLUSTER_IP\""
    ∷ "DOCKER_OPTS+=\" --env CLUSTER_PORT=$CLUSTER_PORT --env CLUSTER_IP=$CLUSTER_IP\""
    ∷ "DOCKER_OPTS+=\" --env  WORKLOAD_IDENTITY=$WORKLOAD_IDENTITY\""
    ∷ "DOCKER_OPTS+=\" --volume /var/run/docker.sock:/var/run/docker.sock\""
    ∷ "DOCKER_OPTS+=\" --volume /usr/src:/usr/src\""
    ∷ "DOCKER_OPTS+=\" --volume /lib/modules:/lib/modules\""
    ∷ "DOCKER_OPTS+=\" --volume /sys/fs/bpf:/sys/fs/bpf\""
    ∷ "DOCKER_OPTS+=\" --volume /sys/kernel/debug:/sys/kernel/debug\""
    ∷ "DOCKER_OPTS+=\" --volume /etc/apparmor.d:/etc/apparmor.d\""
    ∷ "DOCKER_OPTS+=\" --volume /etc/os-release:/media/root/etc/os-release\""
    ∷ ""
    ∷ "KUBEARMOR_OPTS=\" -enableKubeArmorvm=true -logPath=/tmp/kubearmor.log\""
    ∷ ""
    ∷ "if [ -n \"$(sudo docker ps -a -q -f name=kubearmor)\" ]; then"
    ∷ "    echo \"Shutting down running kubearmor agent\""
    ∷ "    sudo docker rm -f kubearmor || true"
    ∷ "fi"
    ∷ ""
    ∷ "KUBEARMOR_IMAGE=\"kubearmor/kubearmor:latest\""
    ∷ ""
    ∷ "echo \"Launching kubearmor agent...\""
    ∷ "sudo docker run --name kubearmor $DOCKER_OPTS $KUBEARMOR_IMAGE kubearmor $KUBEARMOR_OPTS"
    ∷ ""
    ∷ []

-- The script, and the state that holds it.
unfoldable pub generate_ew_installation_script : String → String → GenScript → String × GenScript
unfolding add_contents script_contents
generate_ew_installation_script external_workload identity g =
    let g' = add_contents (script_contents g.p identity) (record g { script_data = "" }) in
    (g'.script_data, g')
